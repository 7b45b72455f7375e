-- ===== src/Predicate/Defaults.antt =====
-- The default predicates of pkg/config/config.go as formulas, and what they say of a node.
use node_reaper.Base.{
  ◌≡◌, refl, ◌∙◌, ap, Bool, true, false, not, ◌&&◌, ◌||◌, Option, none, some, List, [], ◌∷◌, arith,
  Bytes, codes, bytes_eq, ok,
}
use node_reaper.Base.Table.{lookup, HasDistinctKeys}
use node_reaper.Node.{Node}
use node_reaper.Predicate.{
  Value, text, boolean, Govaluate, condition_key, label_key, cordoned_key, parameters_of, eval,
}
use node_reaper.Predicate.Parameters.{member, last_status, as_text, or_null, lookup-parameters_of}
use node_reaper.Predicate.Formula.{
  Comparison, Formula, all_of, any_of, value_eq, found_eq, holds, meaning, variables_of, Reads,
  compiled_as, eval-Reads,
}

abbrev pub condition_ne : Bytes → Bytes → Comparison
condition_ne t status = record { variable = condition_key t; negated = true; against = text status }

abbrev pub label_ne : Bytes → Bytes → Comparison
label_ne l value = record { variable = label_key l; negated = true; against = text value }

abbrev pub cordoned_is : Bool → Comparison
cordoned_is b = record { variable = cordoned_key; negated = false; against = boolean b }

abbrev pub role : Bytes
role = codes "kubernetes.io/role"

-- `defaultConfig.ReapPredicate`
abbrev pub reap_formula : Formula
reap_formula = all_of (
    cordoned_is false
    ∷ label_ne role (codes "master")
    ∷ condition_ne (codes "Ready") (codes "True")
    ∷ [])

-- `defaultConfig.UnhealthyPredicate`
abbrev pub unhealthy_formula : Formula
unhealthy_formula = any_of (
    cordoned_is true
    ∷ condition_ne (codes "OutOfDisk") (codes "False")
    ∷ condition_ne (codes "MemoryPressure") (codes "False")
    ∷ condition_ne (codes "DiskPressure") (codes "False")
    ∷ condition_ne (codes "Ready") (codes "True")
    ∷ [])

-- Whether the last condition of a type has a status, and whether a label has a value.
abbrev pub status_is : Bytes → Bytes → Node → Bool
status_is t status node = found_eq (last_status t node.conditions) (text status)

abbrev pub text_is : Option Bytes → Bytes → Bool
text_is none value = false
text_is (some v) value = bytes_eq v value

abbrev pub label_is : Bytes → Bytes → Node → Bool
label_is l value node = text_is (lookup l node.labels) value

-- The verdict of the default unhealthy predicate, read off the node.
abbrev pub is_unhealthy : Node → Bool
is_unhealthy node =
    node.unschedulable
    || (not (status_is (codes "OutOfDisk") (codes "False") node)
        || (not (status_is (codes "MemoryPressure") (codes "False") node)
            || (not (status_is (codes "DiskPressure") (codes "False") node)
                || not (status_is (codes "Ready") (codes "True") node))))

-- That of the default reap predicate.
abbrev pub is_reapable : Node → Bool
is_reapable node =
    not node.unschedulable
    && (not (label_is role (codes "master") node)
        && not (status_is (codes "Ready") (codes "True") node))

found-or_null :
    (k : Bytes) (vs : List Bytes) (v : Option Value) (b : Bytes)
    → member k vs ≡ true
    → found_eq (or_null k vs v) (text b) ≡ found_eq v (text b)
found-or_null k vs none b h = rw h refl
found-or_null k vs (some v) b h = refl

found-as_text :
    (o : Option Bytes) (value : Bytes) → found_eq (as_text o) (text value) ≡ text_is o value
found-as_text none value = refl
found-as_text (some v) value = refl

module _ (vs : List Bytes) (node : Node) (distinct : HasDistinctKeys node.labels) where
  condition-holds :
      (t status : Bytes)
      → member (condition_key t) vs ≡ true
      → holds (parameters_of vs node) (condition_ne t status) ≡ not (status_is t status node)
  condition-holds t status named =
      let (cordoned, condition, label) = lookup-parameters_of vs node t [] distinct in
      rw condition
        (ap not (found-or_null (condition_key t) vs (last_status t node.conditions) status named))

  label-holds :
      (l value : Bytes)
      → member (label_key l) vs ≡ true
      → holds (parameters_of vs node) (label_ne l value) ≡ not (label_is l value node)
  label-holds l value named =
      let (cordoned, condition, label) = lookup-parameters_of vs node [] l distinct in
      rw label (
        ap not (
          found-or_null (label_key l) vs (as_text (lookup l node.labels)) value named
          ∙ found-as_text (lookup l node.labels) value))

  cordoned-holds :
      (b : Bool)
      → holds (parameters_of vs node) (cordoned_is b)
        ≡ value_eq (boolean node.unschedulable) (boolean b)
  cordoned-holds b =
      let (cordoned, condition, label) = lookup-parameters_of vs node [] [] distinct in
      rw cordoned refl

-- Congruence for the chains of tests.
or_cong : {a a' b b' : Bool} → a ≡ a' → b ≡ b' → (a || b) ≡ (a' || b')
or_cong p q = cc

and_cong : {a a' b b' : Bool} → a ≡ a' → b ≡ b' → (a && b) ≡ (a' && b')
and_cong p q = cc

or_false : {a a' : Bool} → a ≡ a' → (a || false) ≡ a'
or_false {a} p = ground arith

and_true : {a a' : Bool} → a ≡ a' → (a && true) ≡ a'
and_true {a} p = ground arith

boolean_true : (b : Bool) → value_eq (boolean b) (boolean true) ≡ b
boolean_true true = refl
boolean_true false = refl

boolean_false : (b : Bool) → value_eq (boolean b) (boolean false) ≡ not b
boolean_false true = refl
boolean_false false = refl

unhealthy_variables :
    let vs = variables_of unhealthy_formula in
    (member (condition_key (codes "OutOfDisk")) vs ≡ true)
    × (member (condition_key (codes "MemoryPressure")) vs ≡ true)
    × (member (condition_key (codes "DiskPressure")) vs ≡ true)
    × (member (condition_key (codes "Ready")) vs ≡ true)
unfolding bytes_eq condition_key cordoned_key
unhealthy_variables = (refl, refl, refl, refl)

reap_variables :
    let vs = variables_of reap_formula in
    (member (label_key role) vs ≡ true) × (member (condition_key (codes "Ready")) vs ≡ true)
unfolding bytes_eq condition_key cordoned_key label_key
reap_variables = (refl, refl)

unhealthy_meaning :
    (node : Node)
    → HasDistinctKeys node.labels
    → meaning unhealthy_formula (parameters_of (variables_of unhealthy_formula) node)
      ≡ is_unhealthy node
unhealthy_meaning node distinct =
    let vs = variables_of unhealthy_formula in
    let (disk, memory, pressure, ready) = unhealthy_variables in
    or_cong (cordoned-holds vs node distinct true ∙ boolean_true node.unschedulable) (
      or_cong (condition-holds vs node distinct (codes "OutOfDisk") (codes "False") disk) (
        or_cong (condition-holds vs node distinct (codes "MemoryPressure") (codes "False") memory) (
          or_cong (condition-holds vs node distinct (codes "DiskPressure") (codes "False") pressure)
            (or_false (condition-holds vs node distinct (codes "Ready") (codes "True") ready)))))

reap_meaning :
    (node : Node)
    → HasDistinctKeys node.labels
    → meaning reap_formula (parameters_of (variables_of reap_formula) node) ≡ is_reapable node
reap_meaning node distinct =
    let vs = variables_of reap_formula in
    let (labelled, ready) = reap_variables in
    and_cong (cordoned-holds vs node distinct false ∙ boolean_false node.unschedulable) (
      and_cong (label-holds vs node distinct role (codes "master") labelled)
        (and_true (condition-holds vs node distinct (codes "Ready") (codes "True") ready)))

-- Where govaluate reads a text as the default unhealthy predicate, and labels have one value each, a
-- node is unhealthy exactly if it is cordoned, lacks a `False` for one of the pressures, or is not
-- ready; a condition that is missing counts against it.
pub eval-is_unhealthy :
    {Expr : Type 0} (g : Govaluate Expr) (source : Bytes) (node : Node)
    (reads : Reads g source unhealthy_formula)
    → HasDistinctKeys node.labels
    → eval g (compiled_as reads) node ≡ ok (is_unhealthy node)
eval-is_unhealthy g source node reads distinct =
    eval-Reads g source unhealthy_formula node reads ∙ ap ok (unhealthy_meaning node distinct)

-- Where it reads a text as the default reap predicate, a node is reapable exactly if it is not
-- cordoned, is no master, and is not ready.
pub eval-is_reapable :
    {Expr : Type 0} (g : Govaluate Expr) (source : Bytes) (node : Node)
    (reads : Reads g source reap_formula)
    → HasDistinctKeys node.labels
    → eval g (compiled_as reads) node ≡ ok (is_reapable node)
eval-is_reapable g source node reads distinct =
    eval-Reads g source reap_formula node reads ∙ ap ok (reap_meaning node distinct)
