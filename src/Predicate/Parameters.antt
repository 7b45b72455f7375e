-- ===== src/Predicate/Parameters.antt =====
-- What an expression can look up: the parameters that `Eval` hands to govaluate, key by key.
use node_reaper.Base.{
  ◌≡◌, refl, Bool, true, false, ◌||◌, Option, none, some, List, [], ◌∷◌, ◌++◌, arith, Bytes,
  bytes_eq, bytes_eq_iff, bytes_eq_refl, codes, if◌then◌else◌,
}
use node_reaper.Base.Table.{Table, lookup, insert, contains, lookup-insert, HasDistinctKeys}
use node_reaper.Node.{Condition, Node}
use node_reaper.Predicate.{
  Value, null, text, boolean, Parameters, condition_key, label_key, cordoned_key, load_conditions,
  load_labels, blank_missing, parameters_of,
}

abbrev pub member : Bytes → List Bytes → Bool
member x [] = false
member x (y ∷ ys) = bytes_eq y x || member x ys

abbrev pub or_else : Option Value → Option Value → Option Value
or_else none w = w
or_else (some v) w = some v

-- The status of the last condition of a type.
abbrev pub last_status : Bytes → List Condition → Option Value
last_status t [] = none
last_status t (c ∷ cs) =
    or_else (last_status t cs) (if bytes_eq c.type t then some (text c.status) else none)

abbrev pub as_text : Option Bytes → Option Value
as_text none = none
as_text (some v) = some (text v)

-- A key that the expression names is nil where the node has no value for it.
abbrev pub or_null : Bytes → List Bytes → Option Value → Option Value
or_null k variables v = or_else v (if member k variables then some null else none)

bytes_eq-append : (p a b : Bytes) → bytes_eq (p ++ a) (p ++ b) ≡ bytes_eq a b
unfolding bytes_eq
bytes_eq-append [] a b = refl
bytes_eq-append (x ∷ p) a b = ground (arith, bytes_eq-append p a b)

pub lookup-blank_missing :
    (k : Bytes) (xs : List Bytes) (ps : Parameters)
    → lookup k (blank_missing xs ps) ≡ or_null k xs (lookup k ps)
unfolding blank_missing
lookup-blank_missing k [] ps = ground arith
lookup-blank_missing k (x ∷ xs) ps = ground (
  arith,
  lookup-blank_missing k xs (if contains x ps then ps else insert x null ps),
  lookup-insert x k null ps,
  bytes_eq_iff x k,
)

-- The keys of conditions, of labels and of the cordon never meet.
condition_key-eq : (a b : Bytes) → bytes_eq (condition_key a) (condition_key b) ≡ bytes_eq a b
unfolding condition_key
condition_key-eq a b = bytes_eq-append (codes "Conditions.") a b

label_key-eq : (a b : Bytes) → bytes_eq (label_key a) (label_key b) ≡ bytes_eq a b
unfolding label_key
label_key-eq a b = bytes_eq-append (codes "Labels.") a b

keys_differ :
    (a b : Bytes)
    → (bytes_eq (condition_key a) (label_key b) ≡ false)
      × (bytes_eq (label_key b) (condition_key a) ≡ false)
      × (bytes_eq cordoned_key (label_key b) ≡ false)
      × (bytes_eq cordoned_key (condition_key a) ≡ false)
      × (bytes_eq (label_key b) cordoned_key ≡ false)
      × (bytes_eq (condition_key a) cordoned_key ≡ false)
unfolding condition_key label_key cordoned_key bytes_eq
keys_differ a b = (refl, refl, refl, refl, refl, refl)

or_else_assoc : (a b c : Option Value) → or_else (or_else a b) c ≡ or_else a (or_else b c)
or_else_assoc none b c = refl
or_else_assoc (some v) b c = refl

lookup-load_conditions :
    (t : Bytes) (cs : List Condition) (ps : Parameters)
    → lookup (condition_key t) (load_conditions cs ps)
      ≡ or_else (last_status t cs) (lookup (condition_key t) ps)
unfolding load_conditions
lookup-load_conditions t [] ps = refl
lookup-load_conditions t (c ∷ cs) ps = ground (
  arith,
  lookup-load_conditions t cs (insert (condition_key c.type) (text c.status) ps),
  lookup-insert (condition_key c.type) (condition_key t) (text c.status) ps,
  condition_key-eq c.type t,
)

pub lookup-load_labels :
    (l : Bytes) (ls : Table Bytes) (ps : Parameters)
    → HasDistinctKeys ls
    → lookup (label_key l) (load_labels ls ps)
      ≡ or_else (as_text (lookup l ls)) (lookup (label_key l) ps)
unfolding load_labels lookup
lookup-load_labels l [] ps h = refl
lookup-load_labels l ((k, v) ∷ ls) ps h = ground (
  arith,
  lookup-load_labels l ls (insert (label_key k) (text v) ps) h.1,
  lookup-insert (label_key k) (label_key l) (text v) ps,
  label_key-eq k l,
  bytes_eq_iff k l,
)

-- Labels leave the other keys alone, and conditions the keys of labels.
load_labels-condition :
    (t : Bytes) (ls : Table Bytes) (ps : Parameters)
    → lookup (condition_key t) (load_labels ls ps) ≡ lookup (condition_key t) ps
unfolding load_labels
load_labels-condition t [] ps = refl
load_labels-condition t ((k, v) ∷ ls) ps = ground (
  arith,
  load_labels-condition t ls (insert (label_key k) (text v) ps),
  lookup-insert (label_key k) (condition_key t) (text v) ps,
  keys_differ t k,
)

load_conditions-label :
    (l : Bytes) (cs : List Condition) (ps : Parameters)
    → lookup (label_key l) (load_conditions cs ps) ≡ lookup (label_key l) ps
unfolding load_conditions
load_conditions-label l [] ps = refl
load_conditions-label l (c ∷ cs) ps = ground (
  arith,
  load_conditions-label l cs (insert (condition_key c.type) (text c.status) ps),
  lookup-insert (condition_key c.type) (label_key l) (text c.status) ps,
  keys_differ c.type l,
)

lookup-nil : (k : Bytes) → lookup {V = Value} k [] ≡ none
unfolding lookup
lookup-nil k = refl

-- For a node whose labels have distinct keys, the parameters hold under `Cordoned` whether it is
-- cordoned, under `Conditions.t` the status of its last condition of type `t`, and under `Labels.l`
-- its label `l`. Without such a condition or label they hold nil if the expression names the key, and
-- nothing otherwise.
pub lookup-parameters_of :
    (variables : List Bytes) (node : Node) (t l : Bytes)
    → HasDistinctKeys node.labels
    → (lookup cordoned_key (parameters_of variables node) ≡ some (boolean node.unschedulable))
      × (lookup (condition_key t) (parameters_of variables node)
          ≡ or_null (condition_key t) variables (last_status t node.conditions))
      × (lookup (label_key l) (parameters_of variables node)
          ≡ or_null (label_key l) variables (as_text (lookup l node.labels)))
unfolding parameters_of
lookup-parameters_of variables node t l distinct =
    let loaded = load_conditions node.conditions [] in
    let labelled = load_labels node.labels loaded in
    let ps = insert cordoned_key (boolean node.unschedulable) labelled in
    let at = λ (k : Bytes). lookup-insert cordoned_key k (boolean node.unschedulable) labelled in
    ground (
      arith,
      lookup-blank_missing cordoned_key variables ps,
      lookup-blank_missing (condition_key t) variables ps,
      lookup-blank_missing (label_key l) variables ps,
      at cordoned_key,
      at (condition_key t),
      at (label_key l),
      bytes_eq_refl cordoned_key,
      keys_differ t l,
      load_labels-condition t node.labels loaded,
      lookup-load_conditions t node.conditions [],
      lookup-load_labels l node.labels loaded distinct,
      load_conditions-label l node.conditions [],
      lookup-nil (condition_key t),
      lookup-nil (label_key l),
    )

-- Every parameter that the expression names has a value, nil at worst.
pub parameters_of_complete :
    (variables : List Bytes) (node : Node) (x : Bytes)
    → member x variables ≡ true
    → contains x (parameters_of variables node) ≡ true
unfolding parameters_of
parameters_of_complete variables node x h =
    let ps =
      insert cordoned_key (boolean node.unschedulable)
        (load_labels node.labels (load_conditions node.conditions [])) in
    ground (arith, lookup-blank_missing x variables ps)
