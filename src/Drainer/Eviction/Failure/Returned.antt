-- ===== src/Drainer/Eviction/Failure/Returned.antt =====
-- The errors that `evictOrDeletePods` returns.
use node_reaper.Base.{
  ℕ, zero, suc, ◌≡◌, refl, ◌⊎◌, inl, inr, some, List, [], ◌∷◌, arith, Error, failure,
  drain_timed_out, get_elem?, map, Option-cases, subst, sym,
}
use node_reaper.Drainer.Api.{Pod, Call}
use node_reaper.Drainer.Eviction.{
  trying, Worker, new_worker, Evictor, System, Event, run_worker, receive_error, receive_done,
  time_out, pass, run_at, step, run, start,
}
use node_reaper.Drainer.Eviction.Failure.{
  Fails, Failed, IsBlamed, IsBlamed-map, step_worker-IsBlamed,
}

module _ (ev : Evictor) where
  -- An event that changes neither the goroutines nor the channel of errors.
  quiet-IsBlamed :
      {P : Error → Type 0} (s t : System)
      → t.workers ≡ s.workers
      → ((e : Error) → t.err_ch ≡ some e → P e)
      → ((e : Error) → t.returned ≡ some (some e) → (e ≡ failure drain_timed_out []) ⊎ P e)
      → IsBlamed P s
      → IsBlamed P t
  quiet-IsBlamed s t same sent result h = record {
    workers =
        λ i w e at phase. h.workers i w e (subst (λ ws. get_elem? ws i ≡ some w) same at) phase;
    channel = sent;
    result = result;
  }

  -- Where the errors in the channel and returned come from, but for the steps of goroutines.
  pub receive_error-errors :
      (s : System) (e : Error)
      → ((step ev receive_error s).err_ch ≡ some e → s.err_ch ≡ some e)
        × ((step ev receive_error s).returned ≡ some (some e)
            → (s.returned ≡ some (some e)) ⊎ (s.err_ch ≡ some e))
  unfolding step
  receive_error-errors s e = (λ sent. ground arith, λ r. ground arith)

  pub receive_done-errors :
      (s : System) (e : Error)
      → ((step ev receive_done s).err_ch ≡ some e → s.err_ch ≡ some e)
        × ((step ev receive_done s).returned ≡ some (some e) → s.returned ≡ some (some e))
  unfolding step
  receive_done-errors s e = (λ sent. ground arith, λ r. ground arith)

  time_out-errors :
      (s : System) (e : Error)
      → ((step ev time_out s).err_ch ≡ some e → s.err_ch ≡ some e)
        × ((step ev time_out s).returned ≡ some (some e)
            → (s.returned ≡ some (some e)) ⊎ (e ≡ failure drain_timed_out []))
  unfolding step
  time_out-errors s e = (λ sent. ground arith, λ r. ground arith)

  pub pass-errors :
      (d : ℕ) (s : System) (e : Error)
      → ((step ev (pass d) s).err_ch ≡ some e → s.err_ch ≡ some e)
        × ((step ev (pass d) s).returned ≡ some (some e) → s.returned ≡ some (some e))
  unfolding step
  pass-errors d s e = (λ sent. ground arith, λ r. ground arith)

  pub step-IsBlamed :
      (P : Error → Type 0) (x : Event) (s : System)
      → IsBlamed P s
      → IsBlamed (λ e. P e ⊎ Fails ev e x s) (step ev x s)
  unfolding step
  step-IsBlamed P (run_worker i) s h = elim (Option-cases (get_elem? s.workers i)) [
    | inl nobody ↦
        subst (λ o. IsBlamed (λ e. P e ⊎ Fails ev e (run_worker i) s) (run_at ev i o s))
          (sym nobody) (IsBlamed-map s (λ e p. inl p) h)
    | inr (w, at) ↦
        subst (λ o. IsBlamed (λ e. P e ⊎ Fails ev e (run_worker i) s) (run_at ev i o s)) (sym at)
          (step_worker-IsBlamed ev s i w w.phase at refl (λ e l. inr (w, at, l))
            (IsBlamed-map s (λ e p. inl p) h))
  ]
  step-IsBlamed P receive_error s h =
      quiet-IsBlamed s (step ev receive_error s) (ground arith)
        (λ e sent. inl (h.channel e ((receive_error-errors s e).0 sent)))
        (λ e r. elim ((receive_error-errors s e).1 r) [
          | inl before ↦ elim (h.result e before) [ inl late ↦ inl late | inr p ↦ inr (inl p) ]
          | inr sent ↦ inr (inl (h.channel e sent))
        ])
        (IsBlamed-map s (λ e p. inl p) h)
  step-IsBlamed P receive_done s h =
      quiet-IsBlamed s (step ev receive_done s) (ground arith)
        (λ e sent. inl (h.channel e ((receive_done-errors s e).0 sent)))
        (λ e r. elim (h.result e ((receive_done-errors s e).1 r)) [
          | inl late ↦ inl late
          | inr p ↦ inr (inl p)
        ])
        (IsBlamed-map s (λ e p. inl p) h)
  step-IsBlamed P time_out s h =
      quiet-IsBlamed s (step ev time_out s) (ground arith)
        (λ e sent. inl (h.channel e ((time_out-errors s e).0 sent)))
        (λ e r. elim ((time_out-errors s e).1 r) [
          | inl before ↦ elim (h.result e before) [ inl late ↦ inl late | inr p ↦ inr (inl p) ]
          | inr late ↦ inl late
        ])
        (IsBlamed-map s (λ e p. inl p) h)
  step-IsBlamed P (pass d) s h =
      quiet-IsBlamed s (step ev (pass d) s) (ground arith)
        (λ e sent. inl (h.channel e ((pass-errors d s e).0 sent)))
        (λ e r. elim (h.result e ((pass-errors d s e).1 r)) [
          | inl late ↦ inl late
          | inr p ↦ inr (inl p)
        ])
        (IsBlamed-map s (λ e p. inl p) h)

  run-IsBlamed :
      (P : Error → Type 0) (es : List Event) (s : System)
      → IsBlamed P s
      → IsBlamed (λ e. P e ⊎ Failed ev e es s) (run ev es s)
  unfolding run
  run-IsBlamed P [] s h = IsBlamed-map s (λ e p. inl p) h
  run-IsBlamed P (x ∷ es) s h =
      IsBlamed-map (run ev es (step ev x s))
        (λ e p. elim p [
          | inl (inl before) ↦ inl before
          | inl (inr now) ↦ inr (inl now)
          | inr later ↦ inr (inr later)
        ])
        (run-IsBlamed (λ e. P e ⊎ Fails ev e x s) es (step ev x s) (step-IsBlamed P x s h))

  new_worker-trying :
      (pods : List Pod) (i : ℕ) (w : Worker)
      → get_elem? (map new_worker pods) i ≡ some w
      → w.phase ≡ trying
  new_worker-trying [] i w h = cc
  new_worker-trying (pod ∷ pods) zero w h = ground arith
  new_worker-trying (pod ∷ pods) (suc i) w h = new_worker-trying pods i w h

  pub start-unfailed :
      (pods : List Pod) (calls : List Call) (e : Error)
      → ¬ ((start pods calls).returned ≡ some (some e))
  unfolding start
  start-unfailed [] calls e r = cc
  start-unfailed (pod ∷ pods) calls e r = cc

  pub start-IsBlamed : (pods : List Pod) (calls : List Call) → IsBlamed (λ e. ⊥) (start pods calls)
  unfolding start
  start-IsBlamed pods calls = record {
    workers = λ i w e at phase. ground (arith, new_worker-trying pods i w at);
    channel = λ e sent. ground arith;
    result = λ e r. absurd (start-unfailed pods calls e r);
  }

  -- An error that evicting the pods returns under a schedule is the timeout, or a goroutine has got it in
  -- that schedule: by an attempt, but not for a pod that is missing or for too many requests, or by its
  -- wait.
  pub failure-Failed :
      (pods : List Pod) (calls : List Call) (es : List Event) (e : Error)
      → (run ev es (start pods calls)).returned ≡ some (some e)
      → (e ≡ failure drain_timed_out []) ⊎ Failed ev e es (start pods calls)
  failure-Failed pods calls es e h =
      elim ((run-IsBlamed (λ x. ⊥) es (start pods calls) (start-IsBlamed pods calls)).result e h) [
        | inl late ↦ inl late
        | inr (inl never) ↦ absurd never
        | inr (inr blamed) ↦ inr blamed
      ]
