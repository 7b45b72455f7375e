-- ===== src/Drainer/Fairness.antt =====
-- `DrainNode` of pkg/drainer/drain.go under a fair schedule.
use node_reaper.Base.{
  ◌*◌, ◌<◌, ◌≡◌, ◌≢◌, refl, ap, inl, inr, Option, none, some, List, All, arith, Bytes, ok, Error,
  length, Option-cases, Result-cases,
}
use node_reaper.Drainer.Api.{Pod, Call}
use node_reaper.Drainer.{filter_daemon_sets}
use node_reaper.Drainer.Functions.{NodeDrainer}
use node_reaper.Drainer.Eviction.{Event, time_out, run}
use node_reaper.Drainer.Eviction.Fair.{IsRound, IsFinite, IsWilling}
use node_reaper.Drainer.Eviction.Fair.Rounds.{concat, fair-returns}
use node_reaper.Drainer.Eviction.Fair.Success.{fair-succeeds}
use node_reaper.Drainer.DrainNode.{
  evictor, drained, drain_node, drain_pods, cordoned_by, discovered_by, listed_by, started_with,
}

-- Rounds that are fair to the goroutines of a list of pods, and enough of them.
abbrev pub IsFair : List (List Event) → List Pod → Type 0
IsFair ess pods =
    All (IsRound (length (filter_daemon_sets pods))) ess
    × (6 * length (filter_daemon_sets pods) < length ess)

drained-ends : (r : Option (Option Error)) → r ≢ none → drained r ≢ none
drained-ends none ended h = ended refl
drained-ends (some e) ended h = cc

module _ (nd : NodeDrainer) (ess : List (List Event)) (calls : List Call) where
  -- `DrainNode` returns, with success or an error, if every wait for a pod comes to an end, no attempt is
  -- answered that there are too many requests, and the schedule is made of more than six rounds for each pod
  -- that it evicts, each with a turn of every goroutine and of both channels; whether the timer goes off in
  -- them or not.
  pub drain_node-returns :
      ((version : Bytes) → IsFinite (evictor nd version))
      → ((pods : List Pod) → (listed_by nd calls).0 ≡ ok pods → IsFair ess pods)
      → (drain_node nd (concat ess) calls).0 ≢ none
  unfolding drain_node drain_pods
  drain_node-returns calm fair h = elim (Option-cases (cordoned_by nd calls).0) [
    | inr (e, failed) ↦ absurd (ground arith)
    | inl cordoned ↦ elim (Result-cases (discovered_by nd calls).0) [
      | inr (e, failed) ↦ absurd (ground arith)
      | inl (version, found) ↦ elim (Result-cases (listed_by nd calls).0) [
        | inr (e, failed) ↦ absurd (ground arith)
        | inl (pods, listed) ↦
            let (rounds, enough) = fair pods listed in
            let s = run (evictor nd version) (concat ess) (started_with nd calls pods) in
            let ended : s.returned ≢ none =
              fair-returns (evictor nd version) (calm version) (filter_daemon_sets pods)
                (listed_by nd calls).1 ess rounds enough in
            drained-ends s.returned ended (ground arith)
      ]
    ]
  ]

  -- `DrainNode` succeeds under such a schedule, if the timer does not go off in it: when the cordon, discovery
  -- and the list of the pods succeed, every attempt is accepted or does not find its pod, and every wait ends
  -- without an error.
  pub drain_node-drains :
      (version : Bytes) (pods : List Pod)
      → (cordoned_by nd calls).0 ≡ none
      → (discovered_by nd calls).0 ≡ ok version
      → (listed_by nd calls).0 ≡ ok pods
      → IsWilling (evictor nd version)
      → IsFair ess pods
      → All (λ e. e ≢ time_out) (concat ess)
      → (drain_node nd (concat ess) calls).0 ≡ some none
  unfolding drain_node drain_pods
  drain_node-drains version pods cordoned found listed willing (rounds, enough) others =
      let success =
        fair-succeeds (evictor nd version) willing (filter_daemon_sets pods) (listed_by nd calls).1
          ess rounds enough others in
      rw (drain_node, drain_pods, cordoned, found, listed) (ap drained success)
