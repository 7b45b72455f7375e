-- ===== src/Drainer/Emptied.antt =====
-- What a drain that succeeds says of all pods of its node.
use node_reaper.Base.{
  ◌≡◌, refl, subst, ℕ, suc, ◌+◌, none, some, List, [], ◌∷◌, arith, ok, Bytes, Result-cases,
  Option-cases, inl, inr, get_elem?,
}
use node_reaper.Drainer.Api.{Pod, Call}
use node_reaper.Drainer.{filter_daemon_sets}
use node_reaper.Drainer.Functions.{NodeDrainer}
use node_reaper.Drainer.Eviction.{Evictor, Event, System}
use node_reaper.Drainer.Eviction.History.{Confirmed}
use node_reaper.Drainer.DrainNode.{
  evictor, drain_node, cordoned_by, discovered_by, listed_by, started_with, drain_node-success,
}

-- The goroutine of every pod of a list, from number `i` on, has learnt that its pod is gone.
abbrev pub ConfirmedFrom : Evictor → List Event → System → ℕ → List Pod → Type 0
ConfirmedFrom ev es s i [] = Unit
ConfirmedFrom ev es s i (pod ∷ pods) = Confirmed ev i pod es s × ConfirmedFrom ev es s (suc i) pods

-- The cordon has succeeded, the pods of the node have been listed, and all that pass the filter are
-- confirmed to be gone.
abbrev pub Emptied : NodeDrainer → List Event → List Call → Type 0
Emptied nd es calls =
    ((cordoned_by nd calls).0 ≡ none)
    × (pods : List Pod) × (version : Bytes) × ((listed_by nd calls).0 ≡ ok pods)
    × ((discovered_by nd calls).0 ≡ ok version)
    × ConfirmedFrom (evictor nd version) es (started_with nd calls pods) 0 (filter_daemon_sets pods)

all-Confirmed :
    (ev : Evictor) (es : List Event) (s : System) (pods : List Pod) (k : ℕ)
    → ((j : ℕ) (pod : Pod) → get_elem? pods j ≡ some pod → Confirmed ev (k + j) pod es s)
    → ConfirmedFrom ev es s k pods
all-Confirmed ev es s [] k h = tt
all-Confirmed ev es s (pod ∷ pods) k h = (
  subst (λ (n : ℕ). Confirmed ev n pod es s) (omega arith) (h 0 pod refl),
  all-Confirmed ev es s pods (suc k)
      (λ j q at. subst (λ (n : ℕ). Confirmed ev n q es s) (shifted k j) (h (suc j) q at)),
)
  where
    shifted : (k j : ℕ) → k + suc j ≡ suc k + j
    shifted k j = omega arith

-- A drain that succeeds has cordoned the node and listed the pods, and every pod that passes the filter is
-- confirmed to be gone.
pub drain_node-Emptied :
    (nd : NodeDrainer) (es : List Event) (calls : List Call)
    → (drain_node nd es calls).0 ≡ some none
    → Emptied nd es calls
unfolding drain_node
drain_node-Emptied nd es calls h = elim (Option-cases (cordoned_by nd calls).0) [
  | inr (e, failed) ↦ absurd (ground arith)
  | inl cordoned ↦ elim (Result-cases (discovered_by nd calls).0) [
    | inr (e, failed) ↦ absurd (ground arith)
    | inl (version, found) ↦ elim (Result-cases (listed_by nd calls).0) [
      | inr (e, failed) ↦ absurd (ground arith)
      | inl (pods, listed) ↦ (
        cordoned,
        pods,
        version,
        listed,
        found,
        all-Confirmed (evictor nd version) es (started_with nd calls pods) (filter_daemon_sets pods)
            0 (λ j pod at. confirmed version pods found listed j pod at),
      )
    ]
  ]
]
  where
    confirmed :
        (version : Bytes) (pods : List Pod)
        → (discovered_by nd calls).0 ≡ ok version
        → (listed_by nd calls).0 ≡ ok pods
        → (j : ℕ) (pod : Pod) → get_elem? (filter_daemon_sets pods) j ≡ some pod
        → Confirmed (evictor nd version) (0 + j) pod es (started_with nd calls pods)
    confirmed version pods found listed j pod at =
        let (ready, v, found', gone) = drain_node-success nd es calls pods j pod h listed at in
        let same : v ≡ version = cc in
        subst (λ (n : ℕ). Confirmed (evictor nd version) n pod es (started_with nd calls pods))
          (omega arith)
          (subst (λ (u : Bytes). Confirmed (evictor nd u) j pod es (started_with nd calls pods))
            same gone)
