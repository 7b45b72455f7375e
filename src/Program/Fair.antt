-- ===== src/Program/Fair.antt =====
-- The reaper over the drainer where goroutines are scheduled fairly: every drain returns, and a node that may
-- be reaped is.
use node_reaper.Base.{
  ◌≡◌, ◌≢◌, refl, ap, inl, inr, Option, none, some, List, [], ◌∷◌, Bytes, ok, Error, All,
}
use node_reaper.Node.{Node}
use node_reaper.Drainer.Api.{Pod}
use node_reaper.Drainer.Functions.{NodeDrainer}
use node_reaper.Drainer.Client.{new_node_drainer}
use node_reaper.Drainer.Eviction.{time_out, Event}
use node_reaper.Drainer.Eviction.Fair.{IsFinite, IsWilling}
use node_reaper.Drainer.Eviction.Fair.Rounds.{concat}
use node_reaper.Drainer.DrainNode.{evictor, drain_node, cordoned_by, discovered_by, listed_by}
use node_reaper.Drainer.Fairness.{IsFair, drain_node-returns, drain_node-drains}
use node_reaper.Reaper.Effects.{Options, State, NodeReaper, called}
use node_reaper.Reaper.Effects
use node_reaper.Reaper.{run, options}
use node_reaper.Reaper.Decision.{Permitted}
use node_reaper.Reaper.Drain.{drain-none_iff}
use node_reaper.Reaper.Safety.{reaps}
use node_reaper.Reaper.Complete.{CanReap, run-reaps_iff}
use node_reaper.Controller.{set_drain_node_fn}
use node_reaper.Program.{World, new_drain_node_fn, Drains, EmptiedBy, attempt-EmptiedBy}

abbrev result_of : Option (Option Error) → Option Error
result_of none = none
result_of (some r) = r

result_of-some : (r : Option (Option Error)) → r ≢ none → r ≡ some (result_of r)
result_of-some none ended = absurd (ended refl)
result_of-some (some r) ended = refl

-- What the drain of a node returns; every drain of a fair world does.
abbrev pub drain_by : World → List Effects.Call → Node → Options → Option Error
drain_by world calls node opts = result_of (new_drain_node_fn world calls node opts)

-- The drainer that drains a node after some calls.
abbrev pub drainer_in : World → List Effects.Call → Node → Options → NodeDrainer
drainer_in world calls node opts = new_node_drainer (world.client calls) opts node

-- Every drain is scheduled in rounds that are fair to its goroutines, and no goroutine goes on for ever.
pub record IsFairWorld (world : World) : Type 0 where
  pub rounds : List Effects.Call → Node → Options → List (List Event)
  pub scheduled :
      (calls : List Effects.Call) (node : Node) (opts : Options)
      → world.schedule calls node opts ≡ concat (rounds calls node opts)
  pub calm :
      (calls : List Effects.Call) (node : Node) (opts : Options) (version : Bytes)
      → IsFinite (evictor (drainer_in world calls node opts) version)
  pub fair :
      (calls : List Effects.Call) (node : Node) (opts : Options) (pods : List Pod)
      → (listed_by (drainer_in world calls node opts) []).0 ≡ ok pods
      → IsFair (rounds calls node opts) pods

-- In a fair world every drain returns, so that it can be the drain of a reaper.
pub fair-Drains :
    {Expr F : Type 0} (nr : NodeReaper Expr F) (world : World)
    → IsFairWorld world
    → Drains (set_drain_node_fn (drain_by world) nr) world
unfolding new_drain_node_fn
fair-Drains nr world fair = record { returns = returns }
  where
    returns :
        (calls : List Effects.Call) (node : Node) (opts : Options)
        → new_drain_node_fn world calls node opts ≡ some (drain_by world calls node opts)
    returns calls node opts =
        let nd = drainer_in world calls node opts in
        let ended : (drain_node nd (world.schedule calls node opts) []).0 ≢ none =
          rw (fair.scheduled calls node opts) (
            drain_node-returns nd (fair.rounds calls node opts) [] (fair.calm calls node opts)
              (fair.fair calls node opts)) in
        result_of-some (new_drain_node_fn world calls node opts) ended

-- In one drain the server does all that it is asked, and the timer does not go off.
pub record IsWillingDrain (nd : NodeDrainer) (es : List Event) : Type 0 where
  pub version : Bytes
  pub pods : List Pod
  pub rounds : List (List Event)
  pub scheduled : es ≡ concat rounds
  pub cordoned : (cordoned_by nd []).0 ≡ none
  pub found : (discovered_by nd []).0 ≡ ok version
  pub listed : (listed_by nd []).0 ≡ ok pods
  pub willing : IsWilling (evictor nd version)
  pub fair : IsFair rounds pods
  pub untimed : All (λ e. e ≢ time_out) (concat rounds)

willing-drains :
    (nd : NodeDrainer) (es : List Event)
    → IsWillingDrain nd es
    → (drain_node nd es []).0 ≡ some none
willing-drains nd es h = rw h.scheduled (
    drain_node-drains nd h.rounds [] h.version h.pods h.cordoned h.found h.listed h.willing h.fair
      h.untimed)

-- A node that may be reaped, and can be, is reaped by the next run, after all its pods that pass the filter
-- were confirmed to be gone, on these conditions. In the drain with the configured options the cordon,
-- discovery and the list of the pods succeed, every attempt is accepted or does not find its pod, every wait
-- ends without an error, and the schedule is made of more than six rounds for each pod, each with a turn of
-- every goroutine and of both channels, in which the timer does not go off. Every other drain has a schedule
-- of as many such rounds, with the timer or without; in every drain each wait comes to an end, and no attempt
-- is answered that there are too many requests.
pub run-reaps-willing :
    {Expr F : Type 0} (nr : NodeReaper Expr F) (world : World) (node : Node) (s : State)
    → IsFairWorld world
    → IsWillingDrain
        (drainer_in world (Effects.get_nodes ∷ s.calls) node (options nr))
        (world.schedule (Effects.get_nodes ∷ s.calls) node (options nr))
    → Permitted (set_drain_node_fn (drain_by world) nr) node s
    → CanReap nr node
    → (reaps (run (set_drain_node_fn (drain_by world) nr) node s).1.calls ≢ reaps s.calls)
      × EmptiedBy world (Effects.get_nodes ∷ s.calls) node (options nr)
unfolding new_drain_node_fn
run-reaps-willing nr world node s fair willing permitted can =
    let nr' = set_drain_node_fn (drain_by world) nr in
    let calls = Effects.get_nodes ∷ s.calls in
    let returned : new_drain_node_fn world calls node (options nr) ≡ some none =
      willing-drains (drainer_in world calls node (options nr))
        (world.schedule calls node (options nr)) willing in
    let success : nr'.drain_node_fn calls node (options nr) ≡ none = ap result_of returned in
    let drained = (drain-none_iff nr' node (called Effects.get_nodes s)).1 (inr (inl success)) in
    (
      (run-reaps_iff nr' node s).1 (permitted, drained, can),
      attempt-EmptiedBy nr' world node calls (options nr) (fair-Drains nr world fair) success,
    )
