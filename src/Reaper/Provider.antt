-- ===== src/Reaper/Provider.antt =====
-- The provider that a node names: what stands before the first colon of its provider id.
use node_reaper.Base.{
  ℕ, ◌≡◌, refl, ◌≢◌, ◌↔◌, inl, inr, [], ◌∷◌, ◌++◌, arith, Bytes, bytes_eq_iff, before, ok, All, ap,
  Bool-cases, ◌==◌, ◌∙◌, subst,
}
use node_reaper.Node.{Node}
use node_reaper.Reaper.{get_provider}

abbrev pub Lacks : ℕ → Bytes → Type 0
Lacks b = All (λ c. c ≢ b)

-- A rest that is empty or begins at a colon.
abbrev pub IsRest : Bytes → Type 0
IsRest [] = Unit
IsRest (c ∷ s) = c ≡ b':'

before-split :
    (s : Bytes)
    → (rest : Bytes) × (s ≡ before s b':' ++ rest) × Lacks b':' (before s b':') × IsRest rest
unfolding before
before-split [] = ([], refl, tt, tt)
before-split (c ∷ s) = elim (Bool-cases (c == b':')) [
  | inl colon ↦ (c ∷ s, ground arith, ground arith, ground arith)
  | inr other ↦
      let (rest, spelt, lacks, is_rest) = before-split s in
      (rest, ground arith, ground arith, is_rest)
]

before-append :
    (name rest : Bytes) → Lacks b':' name → IsRest rest → before (name ++ rest) b':' ≡ name
unfolding before
before-append [] [] h r = refl
before-append [] (c ∷ s) h r = ground arith
before-append (c ∷ name) rest h r = ground (arith, before-append name rest h.1 r)

-- The provider of a node is a name exactly when the name is not empty, has no colon, and stands at the
-- head of the provider id, before its end or a colon.
pub get_provider-ok_iff :
    (node : Node) (name : Bytes)
    → (get_provider node ≡ ok name) ↔ (
        (rest : Bytes) × (node.provider_id ≡ name ++ rest)
        × (name ≢ [])
        × Lacks b':' name
        × IsRest rest)
unfolding get_provider
get_provider-ok_iff node name = (to, from)
  where
    to :
        get_provider node ≡ ok name
        → (rest : Bytes) × (node.provider_id ≡ name ++ rest)
          × (name ≢ [])
          × Lacks b':' name
          × IsRest rest
    to h =
        let (rest, spelt, lacks, is_rest) = before-split node.provider_id in
        let named : before node.provider_id b':' ≡ name = ground arith in
        (
          rest,
          subst (λ (n : Bytes). node.provider_id ≡ n ++ rest) named spelt,
          λ empty. ground (arith, bytes_eq_iff (before node.provider_id b':') []),
          subst (Lacks b':') named lacks,
          is_rest,
        )

    from :
        (rest : Bytes) × (node.provider_id ≡ name ++ rest)
          × (name ≢ [])
          × Lacks b':' name
          × IsRest rest
        → get_provider node ≡ ok name
    from (rest, spelt, ne, lacks, is_rest) =
        let named : before node.provider_id b':' ≡ name =
          ap (λ (t : Bytes). before t b':') spelt ∙ before-append name rest lacks is_rest in
        ground (arith, bytes_eq_iff name [])
