-- ===== src/Examples/Ending.antt =====
-- The end of cmd/nodereaper/main.go: a signal, and the failure of the metrics server.
use node_reaper.Base.{
  List, All, Some, ◌⊎◌, true, Option, some, running_listener, ◌≡◌, refl, some, [], ◌∷◌, codes,
  Error, foreign, wrapped,
}
use node_reaper.Startup.Process.{
  sending, over, Process, Cause, signal, server_failed, captures, fails, Takes, take_server, begin,
  Reach, start, later, then_, exit_code,
}
use node_reaper.Startup.Process.Ending.{Explains, IsFailure, Reach-returned, Reach-Takes}

-- The metrics server fails while a signal waits, and the error is taken.
abbrev port_taken : Error
port_taken = foreign (codes "address already in use")

abbrev causes : List Cause
causes = signal ∷ server_failed port_taken ∷ []

abbrev both_pending : Process
both_pending = record begin {
  server = sending (some (wrapped running_listener port_taken));
  sig_ch = true;
}

reached : Reach causes both_pending
reached = later (later start (fails port_taken refl)) captures

abbrev ended : Process
ended = record both_pending {
  server = over;
  stop_closed = true;
  returned = some (some (wrapped running_listener port_taken));
}

Reach-returned_example :
    Some (Explains (some (wrapped running_listener port_taken))) causes
    × (ended.stop_closed ≡ true)
    × ((exit_code (some (wrapped running_listener port_taken)) ≡ 0) ⊎ Some IsFailure causes)
Reach-returned_example =
    Reach-returned {p = ended} (some (wrapped running_listener port_taken))
      (then_ reached (take_server (some (wrapped running_listener port_taken)) refl refl)) refl

Reach-Takes_example :
    All
      (λ c.
        (p' : Process) × (r : Option Error) × Takes both_pending p'
        × Explains r c
        × (p'.returned ≡ some r))
      causes
Reach-Takes_example = Reach-Takes {p = both_pending} reached refl
