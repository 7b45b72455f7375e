-- ===== src/Startup/Process.antt =====
-- cmd/nodereaper/main.go, the rest of `Main.Run` with `createSignalCapturer`, `stop` and `main`: the
-- metrics server and the controller in goroutines, and the `select` that waits for a signal or an error.
pub mod Ending
use node_reaper.Base.{
  ℕ, ◌≡◌, Bool, true, false, Option, none, some, List, [], ◌∷◌, Error, wrapped, running_listener,
}

-- A goroutine that sends on `errC`, which has no buffer: it runs, it waits to send, or it is over.
pub data Sender : Type 0 where
  running : Sender
  sending : Option Error → Sender
  over : Sender

-- The goroutines, whether a signal waits in `sigC`, whether `stopC` is closed, and what `Run` returned.
pub record Process : Type 0 where
  pub server : Sender
  pub controller : Sender
  pub sig_ch : Bool
  pub stop_closed : Bool
  pub returned : Option (Option Error)

-- `createSignalCapturer`: the channel of signals, with its one place empty.
abbrev pub create_signal_capturer : Bool
create_signal_capturer = false

-- `stop`
abbrev pub stop : Process → Process
stop p = record p { stop_closed = true }

-- What comes from outside: a captured signal, the end of `ListenAndServe` with an error, and the end of
-- the controller.
pub data Cause : Type 0 where
  signal : Cause
  server_failed : Error → Cause
  controller_ended : Option Error → Cause

-- The outer events. A second signal finds the one place of `sigC` taken.
pub data Happens (p : Process) : Cause → Process → Type 0 where
  captures : Happens p signal (record p { sig_ch = true })
  fails :
      (e : Error)
      → p.server ≡ running
      → Happens p
          (server_failed e)
          (record p { server = sending (some (wrapped running_listener e)) })
  ends :
      (r : Option Error)
      → p.controller ≡ running
      → Happens p (controller_ended r) (record p { controller = sending r })

-- The cases of the `select`, each with `stop` and the return.
pub data Takes (p : Process) : Process → Type 0 where
  take_signal :
      p.returned ≡ none
      → p.sig_ch ≡ true
      → Takes p (stop (record p { sig_ch = false; returned = some none }))
  take_server :
      (r : Option Error)
      → p.returned ≡ none
      → p.server ≡ sending r
      → Takes p (stop (record p { server = over; returned = some r }))
  take_controller :
      (r : Option Error)
      → p.returned ≡ none
      → p.controller ≡ sending r
      → Takes p (stop (record p { controller = over; returned = some r }))

-- The state when the `select` begins to wait, with no signal before. What `Run` returns earlier is
-- `Startup.run`.
abbrev pub begin : Process
begin = record {
  server = running;
  controller = running;
  sig_ch = create_signal_capturer;
  stop_closed = false;
  returned = none;
}

-- The processes that are reached after some causes, the latest first.
pub data Reach : List Cause → Process → Type 0 where
  start : Reach [] begin
  later :
      {cs : List Cause} {c : Cause} {p p' : Process}
      → Reach cs p
      → Happens p c p'
      → Reach (c ∷ cs) p'
  then_ : {cs : List Cause} {p p' : Process} → Reach cs p → Takes p p' → Reach cs p'

-- `main`: the exit code for what `Run` returns.
unfoldable pub exit_code : Option Error → ℕ
exit_code none = 0
exit_code (some e) = 1
