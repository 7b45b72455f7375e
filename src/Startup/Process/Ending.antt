-- ===== src/Startup/Process/Ending.antt =====
-- Why and how the program comes to its end.
use node_reaper.Base.{
  ◌≡◌, refl, ◌⊎◌, inl, inr, Bool, true, false, Option, none, some, List, [], ◌∷◌, All, Some, arith,
  sym, subst, Error, wrapped, running_listener,
}
use node_reaper.Startup.Process.{
  sending, Process, Cause, signal, server_failed, controller_ended, Happens, captures, fails, ends,
  Takes, take_signal, take_server, take_controller, begin, Reach, start, later, then_, exit_code,
}

-- What `Run` returns for a cause.
abbrev pub Explains : Option Error → Cause → Type 0
Explains r signal = r ≡ none
Explains r (server_failed e) = r ≡ some (wrapped running_listener e)
Explains r (controller_ended r') = r ≡ r'

-- A cause that the `select` has not taken yet.
abbrev pub IsPending : Process → Cause → Type 0
IsPending p signal = p.sig_ch ≡ true
IsPending p (server_failed e) = p.server ≡ sending (some (wrapped running_listener e))
IsPending p (controller_ended r) = p.controller ≡ sending r

abbrev is_some : Option (Option Error) → Bool
is_some none = false
is_some (some r) = true

record IsSound (cs : List Cause) (p : Process) : Type 0 where
  -- `stop` has closed `stopC` exactly if `Run` has returned
  closed : p.stop_closed ≡ is_some p.returned
  explained : (r : Option Error) → p.returned ≡ some r → Some (Explains r) cs
  by_signal : p.sig_ch ≡ true → Some (Explains none) cs
  by_server : (r : Option Error) → p.server ≡ sending r → Some (Explains r) cs
  by_controller : (r : Option Error) → p.controller ≡ sending r → Some (Explains r) cs
  pending : p.returned ≡ none → All (IsPending p) cs

All-map : {P Q : Cause → Type 0} (cs : List Cause) → ((c : Cause) → P c → Q c) → All P cs → All Q cs
All-map [] f h = tt
All-map (c ∷ cs) f h = (f c h.0, All-map cs f h.1)

begin-IsSound : IsSound [] begin
begin-IsSound = record {
  closed = refl;
  explained = λ r e. cc;
  by_signal = λ e. cc;
  by_server = λ r e. cc;
  by_controller = λ r e. cc;
  pending = λ e. tt;
}

-- What is pending stays so when something else happens.
Happens-IsPending :
    {p p' : Process} {c : Cause} (d : Cause) → Happens p c p' → IsPending p d → IsPending p' d
Happens-IsPending signal captures h = refl
Happens-IsPending (server_failed e) captures h = h
Happens-IsPending (controller_ended r) captures h = h
Happens-IsPending signal (fails e idle) h = h
Happens-IsPending (server_failed e') (fails e idle) h = absurd (ground arith)
Happens-IsPending (controller_ended r) (fails e idle) h = h
Happens-IsPending signal (ends r idle) h = h
Happens-IsPending (server_failed e) (ends r idle) h = h
Happens-IsPending (controller_ended r') (ends r idle) h = absurd (ground arith)

Happens-IsSound :
    {cs : List Cause} {c : Cause} {p p' : Process}
    → Happens p c p'
    → IsSound cs p
    → IsSound (c ∷ cs) p'
Happens-IsSound {cs} {p = p} captures h = record {
  closed = h.closed;
  explained = λ r e. inr (h.explained r e);
  by_signal = λ e. inl refl;
  by_server = λ r e. inr (h.by_server r e);
  by_controller = λ r e. inr (h.by_controller r e);
  pending = λ e. (refl, All-map cs (λ d. Happens-IsPending {p = p} d captures) (h.pending e));
}
Happens-IsSound {cs} {p = p} (fails x idle) h = record {
  closed = h.closed;
  explained = λ r e. inr (h.explained r e);
  by_signal = λ e. inr (h.by_signal e);
  by_server = λ r e. inl (cc);
  by_controller = λ r e. inr (h.by_controller r e);
  pending = λ e. (refl, All-map cs (λ d. Happens-IsPending {p = p} d (fails x idle)) (h.pending e));
}
Happens-IsSound {cs} {p = p} (ends x idle) h = record {
  closed = h.closed;
  explained = λ r e. inr (h.explained r e);
  by_signal = λ e. inr (h.by_signal e);
  by_server = λ r e. inr (h.by_server r e);
  by_controller = λ r e. inl (cc);
  pending = λ e. (refl, All-map cs (λ d. Happens-IsPending {p = p} d (ends x idle)) (h.pending e));
}

taken_explained :
    (cs : List Cause) (r r' : Option Error)
    → Some (Explains r) cs
    → ◌≡◌ {A = Option (Option Error)} (some r) (some r')
    → Some (Explains r') cs
taken_explained cs r r' h e =
    let same : r ≡ r' = cc in subst (λ (x : Option Error). Some (Explains x) cs) same h

Takes-IsSound : {cs : List Cause} {p p' : Process} → Takes p p' → IsSound cs p → IsSound cs p'
Takes-IsSound {cs} (take_signal waits there) h = record {
  closed = refl;
  explained = λ r e. taken_explained cs none r (h.by_signal there) e;
  by_signal = λ e. cc;
  by_server = h.by_server;
  by_controller = h.by_controller;
  pending = λ e. cc;
}
Takes-IsSound {cs} (take_server x waits there) h = record {
  closed = refl;
  explained = λ r e. taken_explained cs x r (h.by_server x there) e;
  by_signal = h.by_signal;
  by_server = λ r e. cc;
  by_controller = h.by_controller;
  pending = λ e. cc;
}
Takes-IsSound {cs} (take_controller x waits there) h = record {
  closed = refl;
  explained = λ r e. taken_explained cs x r (h.by_controller x there) e;
  by_signal = h.by_signal;
  by_server = h.by_server;
  by_controller = λ r e. cc;
  pending = λ e. cc;
}

Reach-IsSound : {cs : List Cause} {p : Process} → Reach cs p → IsSound cs p
Reach-IsSound start = begin-IsSound
Reach-IsSound (later r h) = Happens-IsSound h (Reach-IsSound r)
Reach-IsSound (then_ r t) = Takes-IsSound t (Reach-IsSound r)

-- A cause that makes the program fail.
abbrev pub IsFailure : Cause → Type 0
IsFailure signal = ⊥
IsFailure (server_failed e) = Unit
IsFailure (controller_ended r) = (e : Error) × (r ≡ some e)

ending-IsFailure :
    (r : Option Error) (cs : List Cause)
    → Some (Explains r) cs
    → (exit_code r ≡ 0) ⊎ Some IsFailure cs
unfolding exit_code
ending-IsFailure none cs h = inl refl
ending-IsFailure (some e) [] h = elim h [ ]
ending-IsFailure (some e) (signal ∷ cs) (inl h) = cc
ending-IsFailure (some e) (server_failed x ∷ cs) (inl h) = inr (inl tt)
ending-IsFailure (some e) (controller_ended r ∷ cs) (inl h) = inr (inl (e, sym h))
ending-IsFailure (some e) (c ∷ cs) (inr h) = elim (ending-IsFailure (some e) cs h) [
  | inl zero_ ↦ inl zero_
  | inr later_ ↦ inr (inr later_)
]

-- Once the controller has been started, and the `select` waits: what `Run` then returns is explained by
-- something that happened after the start: nothing after a signal, the error of the
-- metrics server, or what the controller returned. `stopC` has been closed then. After such a return the
-- program exits with another code than 0 only if the metrics server or the controller has failed.
pub Reach-returned :
    {cs : List Cause} {p : Process} (r : Option Error)
    → Reach cs p
    → p.returned ≡ some r
    → Some (Explains r) cs × (p.stop_closed ≡ true) × ((exit_code r ≡ 0) ⊎ Some IsFailure cs)
Reach-returned {cs} r reached e =
    let sound = Reach-IsSound reached in
    let because = sound.explained r e in
    (because, ground (arith, sound.closed), ending-IsFailure r cs because)

-- The case of the `select` that a pending cause enables.
IsPending-Takes :
    (p : Process) (c : Cause)
    → p.returned ≡ none
    → IsPending p c
    → (p' : Process) × (r : Option Error) × Takes p p' × Explains r c × (p'.returned ≡ some r)
IsPending-Takes p signal waits there = (_, none, take_signal waits there, refl, refl)
IsPending-Takes p (server_failed e) waits there = (
  _,
  some (wrapped running_listener e),
  take_server (some (wrapped running_listener e)) waits there,
  refl,
  refl,
)
IsPending-Takes p (controller_ended r) waits there =
    (_, r, take_controller r waits there, refl, refl)

-- No cause is lost: as long as `Run` has not returned, each cause that has happened can be taken next,
-- which makes `Run` return what the cause explains.
pub Reach-Takes :
    {cs : List Cause} {p : Process}
    → Reach cs p
    → p.returned ≡ none
    → All
        (λ c.
          (p' : Process) × (r : Option Error) × Takes p p' × Explains r c × (p'.returned ≡ some r))
        cs
Reach-Takes {cs} {p} reached waits =
    All-map cs (λ c. IsPending-Takes p c waits) ((Reach-IsSound reached).pending waits)
