-- ===== src/Predicate/Labels.antt =====
-- The labels of a node as the Go map that they are: the order in which `Eval` ranges over them is not fixed,
-- and does not matter.
use node_reaper.Base.{
  ◌≡◌, refl, sym, ◌∙◌, ap, subst, Bool, Option, none, some, List, [], ◌∷◌, arith, Bytes, bytes_eq,
  bytes_eq_iff, Result, ◌>>=◌, Bool-cases, Option-cases, inl, inr, if◌then◌else◌,
}
use mathlib.Core.Quot
use mathlib.Core.Quot.{Quot}
use node_reaper.Base.Table.{Table, lookup, insert, lookup-insert, HasDistinctKeys}
use node_reaper.Node.{Node}
use node_reaper.Predicate.{
  Value, text, boolean, Parameters, Govaluate, NodeEvaluablePredicate, label_key, cordoned_key,
  load_conditions, load_labels, parameters_of, as_boolean, eval,
}
use node_reaper.Predicate.Parameters.{
  or_else, or_null, as_text, lookup-blank_missing, lookup-load_labels,
}

-- A Go map of labels: a table with distinct keys, of which only the entries matter.
abbrev pub Labels : Type 0
Labels = (t : Table Bytes) × HasDistinctKeys t

abbrev pub SameEntries : Labels → Labels → Type 0
SameEntries a b = (k : Bytes) → lookup k a.0 ≡ lookup k b.0

abbrev pub LabelMap : Type 0
LabelMap = Quot SameEntries

abbrev pub with_labels : Node → Labels → Node
with_labels node labels = record node { labels = labels.0 }

-- govaluate reads its parameters by their keys, as a Go map is read.
abbrev pub ReadsByKey : {Expr : Type 0} → Govaluate Expr → Type 0
ReadsByKey {Expr} g =
    (e : Expr) (ps qs : Parameters)
    → ((k : Bytes) → lookup k ps ≡ lookup k qs)
    → g.evaluate e ps ≡ g.evaluate e qs

-- What the labels put under a key, the last one that does.
abbrev labelled : Bytes → Table Bytes → Option Value
labelled k [] = none
labelled k ((l, v) ∷ ls) =
    or_else (labelled k ls) (if bytes_eq (label_key l) k then some (text v) else none)

lookup-labelled :
    (k : Bytes) (ls : Table Bytes) (ps : Parameters)
    → lookup k (load_labels ls ps) ≡ or_else (labelled k ls) (lookup k ps)
unfolding load_labels
lookup-labelled k [] ps = refl
lookup-labelled k ((l, v) ∷ ls) ps = ground (
  arith,
  lookup-labelled k ls (insert (label_key l) (text v) ps),
  lookup-insert (label_key l) k (text v) ps,
)

-- Only the keys of labels are put.
labelled-some :
    (k : Bytes) (ls : Table Bytes) (w : Value)
    → labelled k ls ≡ some w
    → (l : Bytes) × (label_key l ≡ k)
labelled-some k [] w h = cc
labelled-some k ((l, v) ∷ ls) w h = elim (Bool-cases (bytes_eq (label_key l) k)) [
  | inl here ↦ (l, (bytes_eq_iff (label_key l) k).0 here)
  | inr other ↦ elim (Option-cases (labelled k ls)) [
    | inl missing ↦ absurd (ground arith)
    | inr (w', found) ↦ labelled-some k ls w' found
  ]
]

or_else-none : (v : Option Value) → or_else v none ≡ v
or_else-none none = refl
or_else-none (some v) = refl

labelled-label_key :
    (l : Bytes) (ls : Table Bytes)
    → HasDistinctKeys ls
    → labelled (label_key l) ls ≡ as_text (lookup l ls)
unfolding lookup
labelled-label_key l ls distinct =
    sym (or_else-none (labelled (label_key l) ls))
    ∙ sym (lookup-labelled (label_key l) ls [])
    ∙ lookup-load_labels l ls [] distinct
    ∙ or_else-none (as_text (lookup l ls))

labelled-same : (k : Bytes) (a b : Labels) → SameEntries a b → labelled k a.0 ≡ labelled k b.0
labelled-same k (a, da) (b, db) same = elim (Option-cases (labelled k a)) [
  | inr (w, found) ↦ let (l, key) = labelled-some k a w found in at l key
  | inl missing ↦ elim (Option-cases (labelled k b)) [
    | inr (w, found) ↦ let (l, key) = labelled-some k b w found in at l key
    | inl missing' ↦ missing ∙ sym missing'
  ]
]
  where
    at : (l : Bytes) → label_key l ≡ k → labelled k a ≡ labelled k b
    at l key =
        subst (λ (j : Bytes). labelled j a ≡ labelled j b) key
          (labelled-label_key l a da ∙ ap as_text (same l) ∙ sym (labelled-label_key l b db))

-- Labels with the same entries give the same parameters, key by key.
parameters_of-same :
    (variables : List Bytes) (node : Node) (a b : Labels)
    → SameEntries a b
    → (k : Bytes)
    → lookup k (parameters_of variables (with_labels node a))
      ≡ lookup k (parameters_of variables (with_labels node b))
unfolding parameters_of
parameters_of-same variables node a b same k =
    let loaded = load_conditions node.conditions [] in
    let ps = λ (labels : Labels). load_labels labels.0 loaded in
    let at =
      λ (labels : Labels). lookup-insert cordoned_key k (boolean node.unschedulable) (ps labels) in
    lookup-blank_missing k variables (insert cordoned_key (boolean node.unschedulable) (ps a))
    ∙ ap (or_null k variables) (
        at a
        ∙ ap
            (λ (v : Option Value).
              if bytes_eq cordoned_key k then some (boolean node.unschedulable) else v)
            (lookup-labelled k a.0 loaded
              ∙ ap (λ (v : Option Value). or_else v (lookup k loaded)) (labelled-same k a b same)
              ∙ sym (lookup-labelled k b.0 loaded))
        ∙ sym (at b))
    ∙ sym
        (lookup-blank_missing k variables (insert cordoned_key (boolean node.unschedulable) (ps b)))

module _ {Expr : Type 0} (g : Govaluate Expr) (reads : ReadsByKey g) where
  pub eval-same :
      (nep : NodeEvaluablePredicate Expr) (node : Node) (a b : Labels)
      → SameEntries a b
      → eval g nep (with_labels node a) ≡ eval g nep (with_labels node b)
  unfolding eval
  eval-same nep node a b same =
      ap (λ (r : Result Value). r >>= as_boolean nep.expression)
        (reads nep.evaluable_expression _ _
          (parameters_of-same (g.vars nep.evaluable_expression) node a b same))

  -- A predicate is a function of the map of labels, however its entries are listed: there is one function of
  -- the map that is `Eval` on every list of its entries.
  pub eval-LabelMap :
      (nep : NodeEvaluablePredicate Expr) (node : Node)
      → (f : LabelMap → Result Bool) × ((labels : Labels)
          → f (Quot.mk labels) ≡ eval g nep (with_labels node labels))
  eval-LabelMap nep node = (
    Quot.lift (hlevel) (λ labels. eval g nep (with_labels node labels))
        (λ a b same. eval-same nep node a b same),
    λ labels. refl,
  )
