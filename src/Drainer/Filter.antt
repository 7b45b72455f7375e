-- ===== src/Drainer/Filter.antt =====
-- Which pods `filterDaemonSets` keeps, and how often.
use node_reaper.Base.{
  ℕ, zero, suc, ◌≡◌, refl, ◌∙◌, sym, ap, Bool, false, not, List, [], ◌∷◌, ◌++◌, append_assoc,
  append-nil, arith, Bytes, bytes_eq, count_if, All, if◌then◌else◌, Bool-cases, inl, inr, ◌||◌,
}
use node_reaper.Drainer.Api.{Pod}
use node_reaper.Drainer.{daemon_set, append_owned, filter_from, filter_daemon_sets}

abbrev replicate {ℓ} : {A : Type ℓ} → ℕ → A → List A
replicate zero a = []
replicate (suc n) a = a ∷ replicate n a

-- The owners of a pod that are no DaemonSets.
abbrev pub other_owners : Pod → ℕ
other_owners pod = count_if (λ kind. not (bytes_eq kind daemon_set)) pod.owner_kinds

-- Each pod as often as it has owners that are no DaemonSets.
abbrev pub by_owner : List Pod → List Pod
by_owner [] = []
by_owner (pod ∷ pods) = replicate (other_owners pod) pod ++ by_owner pods

append_owned-replicate :
    (pod : Pod) (kinds : List Bytes) (filtered : List Pod)
    → append_owned pod kinds filtered
      ≡ filtered ++ replicate (count_if (λ kind. not (bytes_eq kind daemon_set)) kinds) pod
unfolding append_owned
append_owned-replicate pod [] filtered = sym (append-nil filtered)
append_owned-replicate pod (kind ∷ kinds) filtered = elim (Bool-cases (bytes_eq kind daemon_set)) [
  | inl daemon ↦ rw daemon (append_owned-replicate pod kinds filtered)
  | inr other ↦
      rw other (
        append_owned-replicate pod kinds (filtered ++ pod ∷ [])
        ∙ append_assoc filtered (pod ∷ []) _)
]

filter_from-by_owner :
    (pods filtered : List Pod) → filter_from pods filtered ≡ filtered ++ by_owner pods
unfolding filter_from
filter_from-by_owner [] filtered = sym (append-nil filtered)
filter_from-by_owner (pod ∷ pods) filtered =
    filter_from-by_owner pods (append_owned pod pod.owner_kinds filtered)
    ∙ ap (λ (l : List Pod). l ++ by_owner pods)
        (append_owned-replicate pod pod.owner_kinds filtered)
    ∙ append_assoc filtered (replicate (other_owners pod) pod) (by_owner pods)

-- A pod is kept once for each of its owners that is no DaemonSet, in order: a pod without owners is
-- not kept at all, and one with two such owners is kept twice.
pub filter_daemon_sets-by_owner : (pods : List Pod) → filter_daemon_sets pods ≡ by_owner pods
unfolding filter_daemon_sets
filter_daemon_sets-by_owner pods = filter_from-by_owner pods []

-- A pod with one owner.
abbrev pub IsOwnedOnce : Pod → Type 0
IsOwnedOnce pod = (kind : Bytes) × (pod.owner_kinds ≡ kind ∷ [])

-- The test that the comment on `filterDaemonSets` states: no owner is a DaemonSet.
abbrev pub is_daemon : List Bytes → Bool
is_daemon [] = false
is_daemon (kind ∷ kinds) = bytes_eq kind daemon_set || is_daemon kinds

abbrev pub without_daemons : List Pod → List Pod
without_daemons [] = []
without_daemons (pod ∷ pods) =
    let rest = without_daemons pods in if is_daemon pod.owner_kinds then rest else pod ∷ rest

-- For pods with one owner each the filter removes those that a DaemonSet owns, and no others.
pub filter_daemon_sets-owned_once :
    (pods : List Pod) → All IsOwnedOnce pods → filter_daemon_sets pods ≡ without_daemons pods
filter_daemon_sets-owned_once pods h = filter_daemon_sets-by_owner pods ∙ same pods h
  where
    same : (pods : List Pod) → All IsOwnedOnce pods → by_owner pods ≡ without_daemons pods
    same [] h = refl
    same (pod ∷ pods) h = ground (arith, same pods h.1)

-- Pods without owners are never evicted or deleted, so draining a node with nothing else on it does
-- nothing to them.
pub filter_daemon_sets-bare :
    (pods : List Pod) → All (λ pod. pod.owner_kinds ≡ []) pods → filter_daemon_sets pods ≡ []
filter_daemon_sets-bare pods h = filter_daemon_sets-by_owner pods ∙ dropped pods h
  where
    dropped : (pods : List Pod) → All (λ pod. pod.owner_kinds ≡ []) pods → by_owner pods ≡ []
    dropped [] h = refl
    dropped (pod ∷ pods) h = ground (arith, dropped pods h.1)
