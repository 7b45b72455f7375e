-- ===== src/Drainer/Stuck.antt =====
-- `DrainNode` of pkg/drainer/drain.go on a node with a pod that never goes.
use node_reaper.Base.{
  ℕ, ◌≡◌, ◌≢◌, inl, inr, false, none, some, List, [], ◌∷◌, ◌++◌, All, Bytes, ok, Error, failure,
  wrapped, drain_timed_out, failed_draining, get_elem?, Bool-cases, ap, sym, ◌∙◌,
}
use node_reaper.Base.Int.{pos}
use node_reaper.Drainer.Api.{Pod, Call}
use node_reaper.Drainer.{filter_daemon_sets, wait_for_delete}
use node_reaper.Drainer.Functions.{NodeDrainer}
use node_reaper.Drainer.Eviction.{
  Worker, Evictor, Event, System, attempt, answers, run_worker, receive_error, receive_done,
  time_out, pass, step, start,
}
use node_reaper.Drainer.Eviction.History.{LearnsGone, Confirmed}
use node_reaper.Drainer.Eviction.Invariant.{has_finished}
use node_reaper.Drainer.Eviction.Outcome.{finished-Confirmed, run-worker}
use node_reaper.Drainer.Eviction.TimedOut.{run-times_out}
use node_reaper.Drainer.DrainNode.{
  evictor, drained, drain_node, drain_pods, cordoned_by, discovered_by, listed_by,
}

-- No attempt is answered that the pod is not found, and no wait for it ends without an error.
pub record NeverGoes (ev : Evictor) (pod : Pod) : Type 0 where
  pub there :
      (calls : List Call) (x : Error)
      → (attempt ev pod calls).0 ≡ some x
      → ev.nd.api.is_not_found (some x) ≡ false
  pub waits :
      (calls : List Call)
      → wait_for_delete ev.nd.api ev.nd.poll pod (answers ev calls pod) ≢ some none

module _ (ev : Evictor) (pod : Pod) (stuck : NeverGoes ev pod) where
  never-LearnsGone : (s : System) (w : Worker) → w.pod ≡ pod → ¬ LearnsGone ev s w
  never-LearnsGone s w same (inl (phase, x, answered, missing)) =
      let found =
        stuck.there s.calls x (ap (λ (p : Pod). (attempt ev p s.calls).0) (sym same) ∙ answered) in
      cc
  never-LearnsGone s w same (inr (phase, over)) = stuck.waits s.calls (
      ap (λ (p : Pod). wait_for_delete ev.nd.api ev.nd.poll p (answers ev s.calls p)) (sym same)
      ∙ over)

  never-Confirmed : (i : ℕ) (es : List Event) (s : System) → ¬ Confirmed ev i pod es s
  never-Confirmed i [] s h = h
  never-Confirmed i (run_worker j ∷ es) s (inl (w, here, at, same, gone)) =
      never-LearnsGone s w same gone
  never-Confirmed i (receive_error ∷ es) s (inl h) = h
  never-Confirmed i (receive_done ∷ es) s (inl h) = h
  never-Confirmed i (time_out ∷ es) s (inl h) = h
  never-Confirmed i (pass d ∷ es) s (inl h) = h
  never-Confirmed i (e ∷ es) s (inr later) = never-Confirmed i es (step ev e s) later

-- A node with a pod that passes the filter and never goes: when the cordon, discovery and the list of the pods
-- have succeeded, then whatever the goroutines and the loop have done, if no error was received and a timeout
-- that is not negative then passes in the loop and its timer goes off, `DrainNode` has returned that the drain
-- timed out.
pub drain_node-times_out :
    (nd : NodeDrainer) (es : List Event) (calls : List Call) (version : Bytes) (pods : List Pod)
    (t i : ℕ) (pod : Pod)
    → nd.opts.timeout ≡ pos t
    → (cordoned_by nd calls).0 ≡ none
    → (discovered_by nd calls).0 ≡ ok version
    → (listed_by nd calls).0 ≡ ok pods
    → get_elem? (filter_daemon_sets pods) i ≡ some pod
    → NeverGoes (evictor nd version) pod
    → All (λ e. e ≢ receive_error) es
    → (drain_node nd (es ++ pass t ∷ time_out ∷ []) calls).0
      ≡ some (some (wrapped failed_draining (failure drain_timed_out [])))
unfolding drain_node drain_pods
drain_node-times_out nd es calls version pods t i pod limit cordoned found listed at stuck others =
    let ev = evictor nd version in
    let kept = filter_daemon_sets pods in
    let from = (listed_by nd calls).1 in
    let (w, there) = run-worker ev kept from es i pod at in
    let unfinished : has_finished w.phase ≡ false = elim (Bool-cases (has_finished w.phase)) [
      | inl done ↦ absurd (
          never-Confirmed ev pod stuck i es (start kept from)
            (finished-Confirmed ev kept from es i pod w at there done))
      | inr not_yet ↦ not_yet
    ] in
    let over = run-times_out ev kept from es t i w limit others there unfinished in
    rw (drain_node, drain_pods, cordoned, found, listed) (ap drained over)
