-- ===== src/Examples/Controlling.antt =====
-- Events handled by the reaper of `Examples.Reaping`.
use node_reaper.Base.{◌≡◌, refl, ap, List, [], ◌∷◌, ◌++◌, Option, Error, codes}
use node_reaper.Reaper.Effects.{State, Call, reap_node, drain_node, get_nodes}
use node_reaper.Reaper.{add, options, force_retry_options}
use node_reaper.Controller.{Event, added, deleted, handle_all}
use node_reaper.Controller.Protocol.{Protocol, begin, handle_all-Protocol}
use node_reaper.Controller.Protocol.Reaps.{Drained, handle_all-Drained}
use node_reaper.Examples.Reaping.{reaper, healthy, fresh, run_reaps}

abbrev events : List Event
events = deleted (codes "node-c") ∷ added healthy ∷ []

-- The calls behind the reap.
abbrev behind : List Call
behind =
    drain_node healthy (force_retry_options reaper)
    ∷ drain_node healthy (options reaper)
    ∷ get_nodes
    ∷ []

handled : (handle_all reaper events fresh).calls ≡ [] ++ reap_node (codes "aws") healthy ∷ behind
unfolding handle_all add
handled = ap (λ (x : Option Error × State). x.1.calls) run_reaps

handle_all-Protocol_example : Protocol reaper (handle_all reaper events fresh).calls
handle_all-Protocol_example = handle_all-Protocol reaper events fresh begin

handle_all-Drained_example : Drained reaper (codes "aws") healthy behind
handle_all-Drained_example =
    handle_all-Drained reaper events fresh [] behind (codes "aws") healthy refl handled
