-- ===== src/Program.antt =====
-- The reaper over the drainer: `newDrainNodeFn` of pkg/nodereaper/nodereaper.go.
pub mod Fair
use node_reaper.Base.{
  ◌≡◌, ◌≢◌, ◌⊎◌, inl, inr, ◌∙◌, ap, true, Option, none, some, List, [], ◌∷◌, arith, Error,
}
use node_reaper.Node.{Node}
use node_reaper.Drainer.Eviction.{Event}
use node_reaper.Drainer.Client.{Client, new_node_drainer, IsCordoned, new_cordon_fn-IsCordoned}
use node_reaper.Drainer.DrainNode.{drain_node}
use node_reaper.Drainer.Emptied.{Emptied, drain_node-Emptied}
use node_reaper.Reaper.Effects.{Options, State, NodeReaper, called}
use node_reaper.Reaper.Effects
use node_reaper.Reaper.{run, options, force_retry_options}
use node_reaper.Reaper.Drain.{drain-none_iff}
use node_reaper.Reaper.Safety.{reaps, run-reaps_only_drained}

-- What the reaper's history leads to: the answers of the client in the next drain of a node, and the
-- schedule of its goroutines.
pub record World : Type 0 where
  pub client : List Effects.Call → Client
  pub schedule : List Effects.Call → Node → Options → List Event

-- The call of `DrainNode` in `newDrainNodeFn`: what it returns, if it has returned under the schedule.
unfoldable pub new_drain_node_fn :
    World → List Effects.Call → Node → Options → Option (Option Error)
new_drain_node_fn world calls node opts =
    (drain_node (new_node_drainer (world.client calls) opts node) (world.schedule calls node opts)
      []).0

-- The reaper drains with this function, under schedules that let it return.
pub record Drains {Expr F : Type 0} (nr : NodeReaper Expr F) (world : World) : Type 0 where
  pub returns :
      (calls : List Effects.Call) (node : Node) (opts : Options)
      → new_drain_node_fn world calls node opts ≡ some (nr.drain_node_fn calls node opts)

-- In the drain of a node with these options, the node was cordoned, and all pods that pass the filter are
-- confirmed to be gone.
abbrev pub EmptiedBy : World → List Effects.Call → Node → Options → Type 0
EmptiedBy world calls node opts =
    IsCordoned (world.client calls) node []
    × Emptied (new_node_drainer (world.client calls) opts node) (world.schedule calls node opts) []

module _ {Expr F : Type 0} (nr : NodeReaper Expr F) (world : World) (node : Node) where
  pub attempt-EmptiedBy :
      (calls : List Effects.Call) (opts : Options)
      → Drains nr world
      → nr.drain_node_fn calls node opts ≡ none
      → EmptiedBy world calls node opts
  unfolding new_drain_node_fn
  attempt-EmptiedBy calls opts drains success =
      let emptied =
        drain_node-Emptied (new_node_drainer (world.client calls) opts node)
          (world.schedule calls node opts) [] (drains.returns calls node opts ∙ ap some success) in
      (new_cordon_fn-IsCordoned (world.client calls) node [] emptied.0, emptied)

  -- A run that reaps a node has emptied it, by the drain with the configured options, or by the forced
  -- one after it: the node was cordoned already or has been, its pods were listed, and each that passes the
  -- filter was confirmed to be gone.
  pub run-reaps_only-EmptiedBy :
      (s : State)
      → Drains nr world
      → reaps (run nr node s).1.calls ≢ reaps s.calls
      → EmptiedBy world (Effects.get_nodes ∷ s.calls) node (options nr)
        ⊎ ((nr.cfg.drain_force_retry_on_error ≡ true)
            × EmptiedBy world
                (Effects.drain_node node (options nr) ∷ Effects.get_nodes ∷ s.calls)
                node
                (force_retry_options nr))
  run-reaps_only-EmptiedBy s drains h =
      let (permitted, success, (name, p, real, reaping, got, found, calls)) =
        run-reaps_only_drained nr node s h in
      elim ((drain-none_iff nr node (called Effects.get_nodes s)).0 success) [
        | inl dry ↦ absurd (ground arith)
        | inr (inl first) ↦
            inl (attempt-EmptiedBy (Effects.get_nodes ∷ s.calls) (options nr) drains first)
        | inr (inr (retried, second)) ↦ inr (
          retried,
          attempt-EmptiedBy (Effects.drain_node node (options nr) ∷ Effects.get_nodes ∷ s.calls)
              (force_retry_options nr) drains second,
        )
      ]
