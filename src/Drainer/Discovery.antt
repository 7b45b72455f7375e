-- ===== src/Drainer/Discovery.antt =====
-- What `newSupportEvictionFn` finds out.
use node_reaper.Base.{
  ◌≡◌, refl, ◌≢◌, inl, inr, true, some, List, [], ◌∷◌, arith, Bytes, codes, bytes_eq, bytes_eq_iff,
  Result, ok, err, Some, Result-cases, Option-cases, Bool-cases,
}
use node_reaper.Drainer.{
  ApiGroup, ApiResource, policy_group, is_eviction, version_for, support_eviction,
}

-- A version other than the empty one, for some resource that evicts pods.
version_for-Some :
    (version : Bytes) (rs : List ApiResource)
    → version_for version rs ≢ []
    → Some (λ r. is_eviction r ≡ true) rs × (version_for version rs ≡ version)
unfolding version_for
version_for-Some version [] h = absurd (h refl)
version_for-Some version (r ∷ rs) h = elim (Bool-cases (is_eviction r)) [
  | inl evicts ↦ (inl evicts, ground arith)
  | inr other ↦
      let (later, same) = version_for-Some version rs (ground arith) in (inr later, ground arith)
]

policy_group-Some :
    (gs : List ApiGroup) (version : Bytes)
    → policy_group gs ≡ some version
    → Some (λ g. (g.name ≡ codes "policy") × (g.preferred_version ≡ version)) gs
unfolding policy_group
policy_group-Some [] version h = cc
policy_group-Some (g ∷ gs) version h = elim (Bool-cases (bytes_eq g.name (codes "policy"))) [
  | inl policy ↦ inl ((bytes_eq_iff g.name (codes "policy")).0 policy, ground arith)
  | inr other ↦ inr (policy_group-Some gs version (ground arith))
]

-- A group version is found only if the server lists it as the preferred version of a group `policy`,
-- and lists the resource that evicts pods.
pub support_eviction-found :
    (groups : Result (List ApiGroup)) (resources : Result (List ApiResource)) (version : Bytes)
    → support_eviction groups resources ≡ ok version
    → version ≢ []
    → (gs : List ApiGroup) × (rs : List ApiResource) × (groups ≡ ok gs)
      × (resources ≡ ok rs)
      × Some (λ g. (g.name ≡ codes "policy") × (g.preferred_version ≡ version)) gs
      × Some (λ r. is_eviction r ≡ true) rs
unfolding support_eviction
support_eviction-found (err e) resources version h ne = cc
support_eviction-found (ok gs) resources version h ne = elim (Option-cases (policy_group gs)) [
  | inl missing ↦ absurd (ground arith)
  | inr (v, found) ↦ elim (Result-cases resources) [
    | inr (e, refused) ↦ absurd (ground arith)
    | inl (rs, listed) ↦
        let is_version : version_for v rs ≡ version = ground arith in
        let (evicts, same) = version_for-Some v rs (ground arith) in
        (gs, rs, refl, listed, policy_group-Some gs version (ground arith), evicts)
  ]
]
