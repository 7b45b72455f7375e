-- ===== src/Controller/Protocol/Reaps.antt =====
-- What the protocol says of each call that reaps a node, wherever it stands in a history.
use node_reaper.Base.{
  ◌≡◌, refl, false, Option, none, List, [], ◌∷◌, ◌++◌, Bytes, ok, Error, subst, sym, ap, ◌∙◌,
}
use node_reaper.Node.{Node}
use node_reaper.Reaper.Effects.{NodeReaper, State, Call, get_nodes, reap_node}
use node_reaper.Reaper.{get_provider}
use node_reaper.Reaper.Safety.{is_reap}
use node_reaper.Controller.{Event, handle_all}
use node_reaper.Controller.Protocol.{
  Attempts, once, twice, ignore, look, drain_only, drain_and_reap, Protocol, begin, turn,
  handle_all-Protocol,
}

-- A call that reaps no node is in front of the one that is looked for.
behind :
    (c : Call) (tr pre cs : List Call) (name : Bytes) (node : Node)
    → is_reap c ≡ false
    → c ∷ tr ≡ pre ++ reap_node name node ∷ cs
    → (pre' : List Call) × (tr ≡ pre' ++ reap_node name node ∷ cs)
behind c tr [] cs name node h e = cc
behind c tr (x ∷ pre) cs name node h e = (pre, cc)

module _ {Expr F : Type 0} (nr : NodeReaper Expr F) where
  -- The calls behind a reap: an attempt to drain the same node has just succeeded.
  abbrev pub Drained : Bytes → Node → List Call → Type 0
  Drained name node cs =
      (earlier : List Call) × Attempts nr (get_nodes ∷ earlier) node none cs
      × (nr.cfg.dry_run ≡ false)
      × (nr.cfg.skip_reaping ≡ false)
      × (get_provider node ≡ ok name)

  behind-Attempts :
      {cs' cs : List Call} {other : Node} {r : Option Error} (pre rest : List Call) (name : Bytes)
      (node : Node)
      → Attempts nr cs other r cs'
      → cs' ≡ pre ++ reap_node name node ∷ rest
      → (pre' : List Call) × (cs ≡ pre' ++ reap_node name node ∷ rest)
  behind-Attempts pre rest name node (once answered) e = behind _ _ pre rest name node refl e
  behind-Attempts pre rest name node (twice retries failed answered) e =
      let (pre', e') = behind _ _ pre rest name node refl e in
      behind _ _ pre' rest name node refl e'

  retarget :
      {prev cs cs' : List Call} {node node' : Node} {r : Option Error}
      → node' ≡ node
      → cs' ≡ cs
      → Attempts nr prev node' r cs'
      → Attempts nr prev node r cs
  retarget {prev} {cs} {node' = node'} {r = r} same_node same_calls attempts =
      subst (λ (n : Node). Attempts nr prev n r cs) same_node
        (subst (λ (l : List Call). Attempts nr prev node' r l) same_calls attempts)

  reap-Drained :
      {tr : List Call} (pre cs : List Call) (name : Bytes) (node : Node)
      → Protocol nr tr
      → tr ≡ pre ++ reap_node name node ∷ cs
      → Drained name node cs
  reap-Drained [] cs name node begin e = cc
  reap-Drained (x ∷ pre) cs name node begin e = cc
  reap-Drained pre cs name node (turn h ignore) e = reap-Drained pre cs name node h e
  reap-Drained pre cs name node (turn h look) e =
      let (pre', e') = behind _ _ pre cs name node refl e in reap-Drained pre' cs name node h e'
  reap-Drained pre cs name node (turn h (drain_only real attempts)) e =
      let (pre', e') = behind-Attempts pre cs name node attempts e in
      let (pre'', e'') = behind _ _ pre' cs name node refl e' in
      reap-Drained pre'' cs name node h e''
  reap-Drained [] cs name node
        (turn {cs = earlier} h
          (drain_and_reap {node = node'} {name = name'} {cs' = cs'} real wanted got attempts))
        e =
      let same_node : node' ≡ node = cc in
      let same_name : name' ≡ name = cc in
      let same_calls : cs' ≡ cs = cc in
      (
        earlier,
        retarget same_node same_calls attempts,
        real,
        wanted,
        subst (λ (n : Node). get_provider n ≡ ok name) same_node (got ∙ ap ok same_name),
      )
  reap-Drained (x ∷ pre) cs name node (turn h (drain_and_reap real wanted got attempts)) e =
      let (pre', e') = behind-Attempts pre cs name node attempts (cc) in
      let (pre'', e'') = behind _ _ pre' cs name node refl e' in
      reap-Drained pre'' cs name node h e''

  -- From no calls, whatever events the controller hands over: behind each call that reaps a node in the
  -- whole history stands a drain of that node that has just succeeded, by its first call or by the
  -- forced one after it, and behind that a look at the nodes; reaping was neither switched off nor a dry
  -- run, and the provider called is the one that the node names.
  pub handle_all-Drained :
      (es : List Event) (s : State) (pre cs : List Call) (name : Bytes) (node : Node)
      → s.calls ≡ []
      → (handle_all nr es s).calls ≡ pre ++ reap_node name node ∷ cs
      → Drained name node cs
  handle_all-Drained es s pre cs name node fresh e =
      reap-Drained pre cs name node
        (handle_all-Protocol nr es s (subst (Protocol nr) (sym fresh) begin)) e
