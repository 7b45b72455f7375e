-- ===== src/Drainer/Eviction/Serial.antt =====
-- A schedule that takes one goroutine of an eviction after the other to its end.
use node_reaper.Base.{
  ℕ, suc, ◌+◌, ◌<◌, ◌≡◌, ◌≢◌, refl, ap, ◌∙◌, subst, Option, none, some, Error, List, [], ◌∷◌, ◌==◌,
  arith, length, length-set, get_elem?, set, get_elem?-set, map, if◌then◌else◌,
}
use node_reaper.Drainer.Api.{Pod, Call}
use node_reaper.Drainer.{wait_for_delete}
use node_reaper.Drainer.Eviction.{
  attempt, answers, Worker, new_worker, Evictor, System, Event, trying, waiting, sending_done,
  finished, run_worker, receive_done, select_done, step, run, start,
}

-- An attempt, a wait, a send and its receipt for each goroutine from number `k` on.
abbrev pub serial : ℕ → List Pod → List Event
serial k [] = []
serial k (pod ∷ pods) =
    run_worker k ∷ run_worker k ∷ run_worker k ∷ receive_done ∷ serial (suc k) pods

abbrev returned_for : List Pod → Option (Option Error)
returned_for [] = some none
returned_for (pod ∷ pods) = none

-- The state before goroutine `k`: those before it have been received, and those from it on are new.
record Ready (s : System) (k : ℕ) (rest : List Pod) : Type 0 where
  at : (j : ℕ) → get_elem? s.workers (k + j) ≡ get_elem? (map new_worker rest) j
  size : length s.workers ≡ k + length rest
  empty : s.done_ch ≡ 0
  counted : s.done_count ≡ k
  returns : s.returned ≡ returned_for rest

written {ℓ} :
    {A : Type ℓ} (xs : List A) (i : ℕ) (v : A) {x : A}
    → get_elem? xs i ≡ some x
    → get_elem? (set xs i v) i ≡ some v
written xs i v h = ground (arith, get_elem?-set xs i i v)

elsewhere {ℓ} :
    {A : Type ℓ} (xs : List A) (i j : ℕ) (v : A) → i ≢ j → get_elem? (set xs i v) j ≡ get_elem? xs j
elsewhere xs i j v h = ground (arith, get_elem?-set xs i j v)

module _ (ev : Evictor) where
  step-trying :
      (s : System) (i : ℕ) (pod : Pod)
      → get_elem? s.workers i ≡ some (record { pod = pod; phase = trying })
      → (attempt ev pod s.calls).0 ≡ none
      → step ev (run_worker i) s ≡ record s {
        workers = set s.workers i (record { pod = pod; phase = waiting });
        calls = (attempt ev pod s.calls).1;
      }
  unfolding step
  step-trying s i pod at accepted = rw (at, accepted) refl

  step-waiting :
      (s : System) (i : ℕ) (pod : Pod)
      → get_elem? s.workers i ≡ some (record { pod = pod; phase = waiting })
      → wait_for_delete ev.nd.api ev.nd.poll pod (answers ev s.calls pod) ≡ some none
      → step ev (run_worker i) s
        ≡ record s { workers = set s.workers i (record { pod = pod; phase = sending_done }) }
  unfolding step
  step-waiting s i pod at gone = rw (at, gone) refl

  step-sending :
      (s : System) (i : ℕ) (pod : Pod)
      → get_elem? s.workers i ≡ some (record { pod = pod; phase = sending_done })
      → s.done_ch < length s.workers
      → step ev (run_worker i) s ≡ record s {
        workers = set s.workers i (record { pod = pod; phase = finished });
        done_ch = s.done_ch + 1;
      }
  unfolding step
  step-sending s i pod at free = rw at (ground arith)

  step-receive : (s : System) → s.returned ≡ none → step ev receive_done s ≡ select_done s
  unfolding step
  step-receive s running = rw running refl

  -- The state after the turn of one goroutine.
  abbrev workers_after : List Worker → ℕ → Pod → List Worker
  workers_after xs k pod =
      set
        (set (set xs k (record { pod = pod; phase = waiting })) k
          (record { pod = pod; phase = sending_done }))
        k (record { pod = pod; phase = finished })

  abbrev after_turn : System → ℕ → Pod → System
  after_turn s k pod = select_done (record s {
    workers = workers_after s.workers k pod;
    calls = (attempt ev pod s.calls).1;
    done_ch = s.done_ch + 1;
  })

  length-workers_after :
      (xs : List Worker) (k : ℕ) (pod : Pod) → length (workers_after xs k pod) ≡ length xs
  length-workers_after xs k pod =
      length-set _ k (record { pod = pod; phase = finished })
      ∙ length-set _ k (record { pod = pod; phase = sending_done })
      ∙ length-set xs k (record { pod = pod; phase = waiting })

  workers_after-elsewhere :
      (xs : List Worker) (k j : ℕ) (pod : Pod)
      → k ≢ j
      → get_elem? (workers_after xs k pod) j ≡ get_elem? xs j
  workers_after-elsewhere xs k j pod other =
      elsewhere _ k j (record { pod = pod; phase = finished }) other
      ∙ elsewhere _ k j (record { pod = pod; phase = sending_done }) other
      ∙ elsewhere xs k j (record { pod = pod; phase = waiting }) other

  last_or_not :
      (s : System) (k : ℕ) (pod : Pod) (pods : List Pod)
      → Ready s k (pod ∷ pods)
      → (if s.done_count + 1 == length (workers_after s.workers k pod) then some none else none)
        ≡ returned_for pods
  last_or_not s k pod [] ready =
      ground (arith, length-workers_after s.workers k pod, ready.size, ready.counted)
  last_or_not s k pod (q ∷ qs) ready =
      ground (arith, length-workers_after s.workers k pod, ready.size, ready.counted)

  after_turn-Ready :
      (s : System) (k : ℕ) (pod : Pod) (pods : List Pod)
      → Ready s k (pod ∷ pods)
      → Ready (after_turn s k pod) (suc k) pods
  unfolding select_done
  after_turn-Ready s k pod pods ready = rw ready.empty (record {
    at = λ j.
        workers_after-elsewhere s.workers k (suc k + j) pod (λ e. omega arith)
        ∙ ap (get_elem? s.workers) (shifted k j)
        ∙ ready.at (suc j);
    size = length-workers_after s.workers k pod ∙ omega (arith, ready.size);
    empty = refl;
    counted = omega (arith, ready.counted);
    returns = last_or_not s k pod pods ready;
  })
    where
      shifted : (k j : ℕ) → suc k + j ≡ k + suc j
      shifted k j = omega arith

  module _ (accepted : (calls : List Call) (pod : Pod) → (attempt ev pod calls).0 ≡ none)
      (gone : (calls : List Call) (pod : Pod)
        → wait_for_delete ev.nd.api ev.nd.poll pod (answers ev calls pod) ≡ some none) where
    turn :
        (s : System) (k : ℕ) (pod : Pod) (pods : List Pod)
        → Ready s k (pod ∷ pods)
        → step ev receive_done
            (step ev (run_worker k) (step ev (run_worker k) (step ev (run_worker k) s)))
          ≡ after_turn s k pod
    turn s k pod pods ready =
        let new : get_elem? s.workers k ≡ some (new_worker pod) =
          subst (λ (j : ℕ). get_elem? s.workers j ≡ some (new_worker pod)) (omega arith)
            (ready.at 0) in
        let w1 : Worker = record { pod = pod; phase = waiting } in
        let w2 : Worker = record { pod = pod; phase = sending_done } in
        let xs1 = set s.workers k w1 in
        let xs2 = set xs1 k w2 in
        let calls1 = (attempt ev pod s.calls).1 in
        let s1 : System = record s { workers = xs1; calls = calls1 } in
        let s2 : System = record s1 { workers = xs2 } in
        let at1 = written s.workers k w1 new in
        let at2 = written xs1 k w2 at1 in
        rw (step-trying s k pod new (accepted s.calls pod)) (
          rw (step-waiting s1 k pod at1 (gone calls1 pod)) (
            rw
              (step-sending s2 k pod at2 (
                omega
                  (arith, length-set xs1 k w2, length-set s.workers k w1, ready.size, ready.empty)))
              (step-receive _ ready.returns)))

    serial-Ready :
        (pods : List Pod) (k : ℕ) (s : System)
        → Ready s k pods
        → (run ev (serial k pods) s).returned ≡ some none
    unfolding run
    serial-Ready [] k s ready = ready.returns
    serial-Ready (pod ∷ pods) k s ready =
        ap (λ (t : System). (run ev (serial (suc k) pods) t).returned) (turn s k pod pods ready)
        ∙ serial-Ready pods (suc k) (after_turn s k pod) (after_turn-Ready s k pod pods ready)

    length-new : (pods : List Pod) → length (map new_worker pods) ≡ 0 + length pods
    length-new [] = refl
    length-new (pod ∷ pods) = omega (arith, length-new pods)

    returned-start :
        (pods : List Pod) (calls : List Call) → (start pods calls).returned ≡ returned_for pods
    unfolding start
    returned-start [] calls = refl
    returned-start (pod ∷ pods) calls = refl

    start-Ready : (pods : List Pod) (calls : List Call) → Ready (start pods calls) 0 pods
    unfolding start
    start-Ready pods calls = record {
      at = λ j. ap (get_elem? (map new_worker pods)) (from_zero j);
      size = length-new pods;
      empty = refl;
      counted = refl;
      returns = returned-start pods calls;
    }
      where
        from_zero : (j : ℕ) → 0 + j ≡ j
        from_zero j = omega arith

    -- If every attempt is accepted and every wait ends without an error, the schedule that takes one
    -- goroutine after the other returns success, for any pods.
    pub serial-succeeds :
        (pods : List Pod) (calls : List Call)
        → (run ev (serial 0 pods) (start pods calls)).returned ≡ some none
    serial-succeeds pods calls = serial-Ready pods 0 (start pods calls) (start-Ready pods calls)
