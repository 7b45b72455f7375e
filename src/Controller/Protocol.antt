-- ===== src/Controller/Protocol.antt =====
-- An abstract account of the reaper: the histories of calls that it may leave behind, the latest call
-- first, whatever node events arrive.
pub mod Reaps
pub mod Switches
use node_reaper.Base.{
  ◌≡◌, refl, ◌⊎◌, inl, inr, true, false, Option, none, some, List, [], ◌∷◌, ◌++◌, arith, Bytes, ok,
  Error, Bool-cases, Option-cases, Result-cases, subst, sym, ap, ◌∙◌,
}
use node_reaper.Base.Table.{lookup}
use node_reaper.Node.{Node}
use node_reaper.Reaper.Effects.{
  NodeReaper, State, Options, Call, get_nodes, drain_node, reap_node, called,
}
use node_reaper.Reaper.{
  get_provider, options, force_retry_options, drain, provider_of, reap, run, add,
}
use node_reaper.Controller.{Event, added, deleted, handle, handle_all}
use node_reaper.Reaper.Drain.{drain_calls, drain-calls, drain-none_iff}
use node_reaper.Reaper.Safety.{Reaped, should_reap-effects, run-cases, run-reaps_only_drained}

module _ {Expr F : Type 0} (nr : NodeReaper Expr F) where
  -- The drain of a node after the nodes were listed: by one call, or by a second one with the options
  -- of the forced retry where the first failed. The last call answers `r`.
  pub data Attempts (cs : List Call) (node : Node) (r : Option Error) : List Call → Type 0 where
    once :
        nr.drain_node_fn cs node (options nr) ≡ r
        → Attempts cs node r (drain_node node (options nr) ∷ cs)
    twice :
        {e : Error}
        → nr.cfg.drain_force_retry_on_error ≡ true
        → nr.drain_node_fn cs node (options nr) ≡ some e
        → nr.drain_node_fn (drain_node node (options nr) ∷ cs) node (force_retry_options nr) ≡ r
        → Attempts cs node r
            (drain_node node (force_retry_options nr) ∷ drain_node node (options nr) ∷ cs)

  -- What the reaper may do for one event: nothing, look, look and drain, or look, drain and reap where
  -- draining has succeeded.
  pub data Turn (cs : List Call) : List Call → Type 0 where
    ignore : Turn cs cs
    look : Turn cs (get_nodes ∷ cs)
    drain_only :
        {node : Node} {r : Option Error} {cs' : List Call}
        → nr.cfg.dry_run ≡ false
        → Attempts (get_nodes ∷ cs) node r cs'
        → Turn cs cs'
    drain_and_reap :
        {node : Node} {name : Bytes} {cs' : List Call}
        → nr.cfg.dry_run ≡ false
        → nr.cfg.skip_reaping ≡ false
        → get_provider node ≡ ok name
        → Attempts (get_nodes ∷ cs) node none cs'
        → Turn cs (reap_node name node ∷ cs')

  pub data Protocol : List Call → Type 0 where
    begin : Protocol []
    turn : {cs cs' : List Call} → Protocol cs → Turn cs cs' → Protocol cs'

  -- What draining does to the history.
  drain-Attempts :
      (node : Node) (s : State)
      → nr.cfg.dry_run ≡ false
      → (r : Option Error) × Attempts s.calls node r (drain nr node s).1.calls
        × ((drain nr node s).0 ≡ none → r ≡ none)
  drain-Attempts node s real =
      let first = nr.drain_node_fn s.calls node (options nr) in
      let second =
        nr.drain_node_fn (drain_node node (options nr) ∷ s.calls) node (force_retry_options nr) in
      let calls = drain-calls nr node s in
      elim (Option-cases first) [
        | inl success ↦
            let same : (drain nr node s).1.calls ≡ drain_node node (options nr) ∷ s.calls =
              ground arith in
            (none, rw same (once success), λ h. refl)
        | inr (e, failure_) ↦ elim (Bool-cases nr.cfg.drain_force_retry_on_error) [
          | inl retries ↦
              let same : (drain nr node s).1.calls
                  ≡ drain_node node (force_retry_options nr)
                    ∷ drain_node node (options nr)
                    ∷ s.calls =
                ground arith in
              (
                second,
                rw same (twice retries failure_ refl),
                λ h. ground (arith, drain-none_iff nr node s),
              )
          | inr gives_up ↦
              let same : (drain nr node s).1.calls ≡ drain_node node (options nr) ∷ s.calls =
                ground arith in
              (first, rw same (once refl), λ h. ground (arith, drain-none_iff nr node s))
        ]
      ]

  reap-calls :
      (node : Node) (s : State)
      → ((reap nr node s).1.calls ≡ s.calls)
        ⊎ ((name : Bytes) × (nr.cfg.dry_run ≡ false)
            × (nr.cfg.skip_reaping ≡ false)
            × (get_provider node ≡ ok name)
            × ((reap nr node s).1.calls ≡ reap_node name node ∷ s.calls))
  unfolding reap provider_of
  reap-calls node s = elim (Bool-cases nr.cfg.dry_run) [
    | inl dry ↦ inl (ground arith)
    | inr real ↦ elim (Bool-cases nr.cfg.skip_reaping) [
      | inl skipped ↦ inl (ground arith)
      | inr wanted ↦ elim (Result-cases (get_provider node)) [
        | inr (e, refused) ↦ inl (ground arith)
        | inl (name, got) ↦ elim (Option-cases (lookup name nr.node_providers)) [
          | inl missing ↦ inl (ground arith)
          | inr (p, found) ↦ inr (name, real, wanted, got, ground arith)
        ]
      ]
    ]
  ]

  drained-Turn :
      (node : Node) (s : State) → Turn s.calls (drain nr node (called get_nodes s)).1.calls
  drained-Turn node s = elim (Bool-cases nr.cfg.dry_run) [
    | inl dry ↦
        let same : (drain nr node (called get_nodes s)).1.calls ≡ get_nodes ∷ s.calls =
          ground (arith, drain-calls nr node (called get_nodes s)) in
        rw same look
    | inr real ↦
        let (r, attempts, success) = drain-Attempts node (called get_nodes s) real in
        drain_only real attempts
  ]

  pub run-Turn : (node : Node) (s : State) → Turn s.calls (run nr node s).1.calls
  run-Turn node s = elim (run-cases nr node s) [
    | inl (r, e) ↦ elim (should_reap-effects nr node s) [
      | inl same ↦ let calls : (run nr node s).1.calls ≡ s.calls = ground arith in rw calls ignore
      | inr looked ↦
          let calls : (run nr node s).1.calls ≡ get_nodes ∷ s.calls = ground arith in rw calls look
    ]
    | inr (inl (e, p, failed, done)) ↦ rw done (drained-Turn node s)
    | inr (inr (p, drained, done)) ↦ elim (reap-calls node (drain nr node (called get_nodes s)).1) [
      | inl same ↦ rw (done, same) (drained-Turn node s)
      | inr (name, real, wanted, got, calls) ↦
          let (r, attempts, success) = drain-Attempts node (called get_nodes s) real in
          rw (done, calls)
            (drain_and_reap real wanted got (
              subst
                (λ (o : Option Error).
                  Attempts (get_nodes ∷ s.calls) node o
                    (drain nr node (called get_nodes s)).1.calls)
                (success drained) attempts))
    ]
  ]

  handle-Protocol : (e : Event) (s : State) → Protocol s.calls → Protocol (handle nr e s).calls
  unfolding add
  handle-Protocol (added node) s h = turn h (run-Turn node s)
  handle-Protocol (deleted name) s h = h

  -- The reaper keeps to the protocol: whatever events arrive, in whatever order, a history of its turns
  -- is extended to a history of its turns. In a turn it does nothing, lists the nodes, lists them and
  -- drains one node, by one call or by a forced one after it, or lists them, drains one node without an
  -- error and reaps that node.
  pub handle_all-Protocol :
      (es : List Event) (s : State) → Protocol s.calls → Protocol (handle_all nr es s).calls
  unfolding handle_all
  handle_all-Protocol [] s h = h
  handle_all-Protocol (e ∷ es) s h = handle_all-Protocol es (handle nr e s) (handle-Protocol e s h)
