-- ===== src/Predicate/Formula.antt =====
-- What is documented of govaluate for comparisons of parameters that are joined by `&&` or `||`, and
-- the default predicates of pkg/config/config.go as such.
use node_reaper.Base.{
  ◌≡◌, refl, Bool, true, false, not, ◌&&◌, ◌||◌, Option, none, some, List, [], ◌∷◌, map, All, arith,
  Bytes, bytes_eq, bytes_eq_refl, ok,
}
use node_reaper.Base.Table.{lookup, contains}
use node_reaper.Node.{Node}
use node_reaper.Predicate.{
  Value, null, text, boolean, Parameters, Govaluate, NodeEvaluablePredicate, parameters_of, eval,
}
use node_reaper.Predicate.Parameters.{member, parameters_of_complete}

-- A parameter against a value, by `==`, or by `!=` if it is negated.
pub record Comparison : Type 0 where
  pub variable : Bytes
  pub negated : Bool
  pub against : Value

pub data Formula : Type 0 where
  all_of : List Comparison → Formula
  any_of : List Comparison → Formula

-- Values of different kinds are different, as is a value from nil.
abbrev pub value_eq : Value → Value → Bool
value_eq null null = true
value_eq (text a) (text b) = bytes_eq a b
value_eq (boolean true) (boolean b) = b
value_eq (boolean false) (boolean b) = not b
value_eq _ _ = false

abbrev pub found_eq : Option Value → Value → Bool
found_eq none v = value_eq null v
found_eq (some w) v = value_eq w v

abbrev pub negate_if : Bool → Bool → Bool
negate_if true b = not b
negate_if false b = b

abbrev pub holds : Parameters → Comparison → Bool
holds ps c = negate_if c.negated (found_eq (lookup c.variable ps) c.against)

abbrev pub every_holds : List Comparison → Parameters → Bool
every_holds [] ps = true
every_holds (c ∷ cs) ps = holds ps c && every_holds cs ps

abbrev pub some_holds : List Comparison → Parameters → Bool
some_holds [] ps = false
some_holds (c ∷ cs) ps = holds ps c || some_holds cs ps

abbrev pub meaning : Formula → Parameters → Bool
meaning (all_of cs) = every_holds cs
meaning (any_of cs) = some_holds cs

abbrev pub variables_of : Formula → List Bytes
variables_of (all_of cs) = map (λ c. c.variable) cs
variables_of (any_of cs) = map (λ c. c.variable) cs

-- The library reads a text as a formula: it compiles, it names the formula's parameters, and where
-- these are given it evaluates to what the formula means.
pub record Reads {Expr : Type 0} (g : Govaluate Expr) (source : Bytes) (f : Formula) : Type 0 where
  pub expr : Expr
  pub compiled : g.new_expression source ≡ ok expr
  pub named : g.vars expr ≡ variables_of f
  pub evaluated :
      (ps : Parameters)
      → All (λ x. contains x ps ≡ true) (variables_of f)
      → g.evaluate expr ps ≡ ok (boolean (meaning f ps))

-- The predicate that a text is compiled to.
abbrev pub compiled_as :
    {Expr : Type 0} {g : Govaluate Expr} {source : Bytes} {f : Formula}
    → Reads g source f
    → NodeEvaluablePredicate Expr
compiled_as {source = source} reads = record {
  expression = source;
  evaluable_expression = reads.expr;
}

given_everywhere :
    (xs variables : List Bytes) (node : Node)
    → All (λ x. member x variables ≡ true) xs
    → All (λ x. contains x (parameters_of variables node) ≡ true) xs
given_everywhere [] variables node h = tt
given_everywhere (x ∷ xs) variables node h =
    (parameters_of_complete variables node x h.0, given_everywhere xs variables node h.1)

member-weaken :
    (xs : List Bytes) (y : Bytes) (ys : List Bytes)
    → All (λ x. member x ys ≡ true) xs
    → All (λ x. member x (y ∷ ys) ≡ true) xs
member-weaken [] y ys h = tt
member-weaken (x ∷ xs) y ys h = (ground arith, member-weaken xs y ys h.1)

self_members : (xs : List Bytes) → All (λ x. member x xs ≡ true) xs
self_members [] = tt
self_members (x ∷ xs) = (ground (arith, bytes_eq_refl x), member-weaken xs x xs (self_members xs))

-- The predicate gives the verdict of the formula on the parameters of the node.
pub eval-Reads :
    {Expr : Type 0} (g : Govaluate Expr) (source : Bytes) (f : Formula) (node : Node)
    (reads : Reads g source f)
    → eval g (compiled_as reads) node ≡ ok (meaning f (parameters_of (variables_of f) node))
unfolding eval
eval-Reads g source f node reads =
    rw
      (
        reads.named,
        reads.evaluated (parameters_of (variables_of f) node) (
            given_everywhere (variables_of f) (variables_of f) node
              (self_members (variables_of f))),
      )
      refl
