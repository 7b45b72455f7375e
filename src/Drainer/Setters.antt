-- ===== src/Drainer/Setters.antt =====
-- The setters of pkg/drainer/drain.go: which functions a drain depends on.
use node_reaper.Base.{
  ℕ, ◌≡◌, refl, ◌∙◌, inl, inr, true, false, Option, none, some, List, [], ◌∷◌, Bytes, get_elem?, ap,
  Option-cases, Result-cases,
}
use node_reaper.Drainer.Api.{Pod, Call}
use node_reaper.Drainer.{filter_daemon_sets}
use node_reaper.Drainer.Functions.{
  NodeDrainer, EvictPodFn, DeletePodFn, set_evict_pod_fn, set_delete_pod_fn,
}
use node_reaper.Drainer.Eviction.{
  Evictor, attempt, Phase, trying, waiting, sending_done, sending_error, finished, failed, Worker,
  System, Event, run_worker, receive_error, receive_done, time_out, pass, step_worker, run_at, step,
  run, start,
}
use node_reaper.Drainer.DrainNode.{
  evictor, drained, drain_node, drain_pods, cordoned_by, discovered_by, listed_by,
}

-- Two evictions that differ in how they attempt at most, and whose attempts are the same, run the same.
module _ (ev ev' : Evictor) (api : ev.nd.api ≡ ev'.nd.api) (poll : ev.nd.poll ≡ ev'.nd.poll)
    (opts : ev.nd.opts ≡ ev'.nd.opts) (get_pod : ev.nd.get_pod_fn ≡ ev'.nd.get_pod_fn)
    (same : (pod : Pod) (calls : List Call) → attempt ev pod calls ≡ attempt ev' pod calls) where
  step_worker-same :
      (i : ℕ) (w : Worker) (p : Phase) (s : System)
      → step_worker ev i w p s ≡ step_worker ev' i w p s
  unfolding step_worker
  step_worker-same i w trying s = rw (same w.pod s.calls, api) refl
  step_worker-same i w waiting s = rw (api, poll, get_pod) refl
  step_worker-same i w sending_done s = refl
  step_worker-same i w (sending_error e) s = refl
  step_worker-same i w finished s = refl
  step_worker-same i w failed s = refl

  step-same : (e : Event) (s : System) → step ev e s ≡ step ev' e s
  unfolding step
  step-same (run_worker i) s = go (get_elem? s.workers i)
    where
      go : (o : Option Worker) → run_at ev i o s ≡ run_at ev' i o s
      go none = refl
      go (some w) = step_worker-same i w w.phase s
  step-same receive_error s = refl
  step-same receive_done s = refl
  step-same time_out s = rw opts refl
  step-same (pass d) s = refl

  run-same : (es : List Event) (s : System) → run ev es s ≡ run ev' es s
  unfolding run
  run-same [] s = refl
  run-same (e ∷ es) s = ap (run ev es) (step-same e s) ∙ run-same es (step ev' e s)

module _ (nd : NodeDrainer) (es : List Event) (calls : List Call) where
  -- The drainer with other functions for attempts.
  abbrev swap : EvictPodFn → DeletePodFn → NodeDrainer
  swap evict delete = record nd { evict_pod_fn = evict; delete_pod_fn = delete }

  module _ (evict : EvictPodFn) (delete : DeletePodFn)
      (same : (version : Bytes) (pod : Pod) (earlier : List Call)
        → attempt (evictor (swap evict delete) version) pod earlier
          ≡ attempt (evictor nd version) pod earlier) where
    drain_pods-swap :
        (version : Bytes) (pods : List Pod) (earlier : List Call)
        → drain_pods (swap evict delete) es version pods earlier
          ≡ drain_pods nd es version pods earlier
    unfolding drain_pods
    drain_pods-swap version pods earlier =
        ap (λ (s : System). (drained s.returned, s.calls))
          (run-same (evictor (swap evict delete) version) (evictor nd version) refl refl refl refl
            (same version) es (start (filter_daemon_sets pods) earlier))

    drain_node-swap : drain_node (swap evict delete) es calls ≡ drain_node nd es calls
    unfolding drain_node
    drain_node-swap = elim (Option-cases (cordoned_by nd calls).0) [
      | inr (e, refused) ↦ rw (drain_node, refused) refl
      | inl cordoned ↦ elim (Result-cases (discovered_by nd calls).0) [
        | inr (e, refused) ↦ rw (drain_node, cordoned, refused) refl
        | inl (version, found) ↦ elim (Result-cases (listed_by nd calls).0) [
          | inr (e, refused) ↦ rw (drain_node, cordoned, found, refused) refl
          | inl (pods, listed) ↦
              rw (drain_node, cordoned, found, listed)
                (drain_pods-swap version pods (listed_by nd calls).1)
        ]
      ]
    ]

  -- A drain that evicts does not depend on the function that deletes pods: setting another one with
  -- `SetDeletePodFn` leaves what `DrainNode` returns and all calls as they are, under every schedule.
  pub drain_node-set_delete_pod_fn :
      (fn : DeletePodFn)
      → nd.opts.use_eviction ≡ true
      → drain_node (set_delete_pod_fn fn nd) es calls ≡ drain_node nd es calls
  unfolding attempt
  drain_node-set_delete_pod_fn fn evicts =
      drain_node-swap nd.evict_pod_fn fn (λ version pod earlier. rw (attempt, evicts) refl)

  -- Nor does one that deletes depend on the function that evicts.
  pub drain_node-set_evict_pod_fn :
      (fn : EvictPodFn)
      → nd.opts.use_eviction ≡ false
      → drain_node (set_evict_pod_fn fn nd) es calls ≡ drain_node nd es calls
  unfolding attempt
  drain_node-set_evict_pod_fn fn deletes =
      drain_node-swap fn nd.delete_pod_fn (λ version pod earlier. rw (attempt, deletes) refl)
