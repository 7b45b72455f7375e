-- ===== src/Predicate.antt =====
-- pkg/nodereaper/evaluable_predicate.go: a predicate on nodes, evaluated by the library govaluate,
-- which is a parameter. What `Eval` logs is left out.
pub mod Parameters
pub mod Formula
pub mod Defaults
pub mod Labels
use node_reaper.Base.{
  Bool, true, false, List, [], ◌∷◌, ◌++◌, Bytes, codes, Result, ok, err, failure, not_boolean,
  ◌>>=◌, if◌then◌else◌,
}
use node_reaper.Base.Table.{Table, insert, contains}
use node_reaper.Node.{Condition, Node}

-- A value of govaluate; `other` stands for every value that is none of the rest.
pub data Value : Type 0 where
  null : Value
  text : Bytes → Value
  boolean : Bool → Value
  other : Value

abbrev pub Parameters : Type 0
Parameters = Table Value

-- `NewEvaluableExpression`, `Vars` and `Eval` of govaluate, over its expressions.
pub record Govaluate (Expr : Type 0) : Type 0 where
  pub new_expression : Bytes → Result Expr
  pub vars : Expr → List Bytes
  pub evaluate : Expr → Parameters → Result Value

pub record NodeEvaluablePredicate (Expr : Type 0) : Type 0 where
  pub expression : Bytes
  pub evaluable_expression : Expr

unfoldable pub condition_key : Bytes → Bytes
condition_key t = codes "Conditions." ++ t

unfoldable pub label_key : Bytes → Bytes
label_key l = codes "Labels." ++ l

unfoldable pub cordoned_key : Bytes
cordoned_key = codes "Cordoned"

unfoldable pub load_conditions : List Condition → Parameters → Parameters
load_conditions [] ps = ps
load_conditions (c ∷ cs) ps = load_conditions cs (insert (condition_key c.type) (text c.status) ps)

unfoldable pub load_labels : Table Bytes → Parameters → Parameters
load_labels [] ps = ps
load_labels ((l, v) ∷ ls) ps = load_labels ls (insert (label_key l) (text v) ps)

-- The parameters that the expression names and the node lacks are made nil.
unfoldable pub blank_missing : List Bytes → Parameters → Parameters
blank_missing [] ps = ps
blank_missing (x ∷ xs) ps = blank_missing xs (if contains x ps then ps else insert x null ps)

unfoldable pub parameters_of : List Bytes → Node → Parameters
parameters_of variables node = blank_missing variables (
    insert cordoned_key (boolean node.unschedulable)
      (load_labels node.labels (load_conditions node.conditions [])))

-- `nodeHealthy.(bool)`
abbrev pub as_boolean : Bytes → Value → Result Bool
as_boolean e (boolean b) = ok b
as_boolean e _ = err (failure not_boolean e)

module _ {Expr : Type 0} (g : Govaluate Expr) where
  -- `NewEvaluablePredicate`
  unfoldable pub new_predicate : Bytes → Result (NodeEvaluablePredicate Expr)
  new_predicate expression = do
    e ← g.new_expression expression
    ok (record { expression = expression; evaluable_expression = e })

  -- `NodeEvaluablePredicate.Eval`
  unfoldable pub eval : NodeEvaluablePredicate Expr → Node → Result Bool
  eval nep node = do
    value ←
        g.evaluate nep.evaluable_expression (parameters_of (g.vars nep.evaluable_expression) node)
    as_boolean nep.expression value
