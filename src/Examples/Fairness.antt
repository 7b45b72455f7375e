-- ===== src/Examples/Fairness.antt =====
-- A fair schedule for the drain of `Examples.Draining`.
use node_reaper.Base.{
  ℕ, zero, suc, ◌≡◌, ◌≢◌, refl, inl, inr, none, some, codes, Bytes, ok, List, [], ◌∷◌, All, arith,
  bytes_eq, subst,
}
use node_reaper.Node.{Node}
use node_reaper.Reaper.Effects.{Options}
use node_reaper.Drainer.Api.{Pod}
use node_reaper.Drainer.{
  filter_daemon_sets, cordon_node, support_eviction, policy_group, version_for,
}
use node_reaper.Drainer.Eviction.{Event, run_worker, receive_error, receive_done, time_out}
use node_reaper.Drainer.Eviction.Fair.{Turns, IsRound, IsFinite, IsWilling}
use node_reaper.Drainer.Eviction.Fair.Rounds.{concat}
use node_reaper.Drainer.Fairness.{IsFair, drain_node-returns, drain_node-drains}
use node_reaper.Drainer.DrainNode.{evictor, drain_node, cordoned_by, discovered_by}
use node_reaper.Examples.Draining.{
  web, logger, batch, drainer, options, node_a, willing_drainer, gone_at_once, waits_end, answers,
  accepted_at_once,
}

-- The goroutines, the second first, and the channels.
abbrev round : List Event
round = receive_done ∷ run_worker 1 ∷ receive_error ∷ run_worker 0 ∷ []

abbrev pub again : ℕ → List (List Event)
again zero = []
again (suc n) = round ∷ again n

turns : Turns 2 round
turns zero below = inr (inr (inr (inl refl)))
turns (suc zero) below = inr (inl refl)
turns (suc (suc i)) below = absurd (omega arith)

round-IsRound : IsRound 2 round
round-IsRound = record { goroutines = turns; errors = inr (inr (inl refl)); values = inl refl }

again-IsRound : (n : ℕ) → All (IsRound 2) (again n)
again-IsRound zero = tt
again-IsRound (suc n) = (round-IsRound, again-IsRound n)

drainer-IsFinite : (version : Bytes) → IsFinite (evictor drainer version)
drainer-IsFinite version = ((λ calls pod x refused. inr refl), λ calls pod. waits_end pod answers)

pub all_evicted :
    (opts : Options) (node : Node) (version : Bytes)
    → IsWilling (evictor (willing_drainer opts node) version)
all_evicted opts node version = record {
  accepted = λ calls pod x refused. let none_ = accepted_at_once opts node version calls pod in cc;
  gone = λ calls pod. gone_at_once calls pod;
}

pub untimed : (n : ℕ) → All (λ e. e ≢ time_out) (concat (again n))
untimed zero = tt
untimed (suc n) = (λ h. cc, (λ h. cc, (λ h. cc, (λ h. cc, untimed n))))

-- Of the pods that are listed, the DaemonSet's is filtered out.
pub fair : IsFair (again 13) (web ∷ logger ∷ batch ∷ [])
unfolding filter_daemon_sets bytes_eq
fair = (again-IsRound 13, omega arith)

pub listed-IsFair :
    (pods : List Pod) → ok (web ∷ logger ∷ batch ∷ []) ≡ ok pods → IsFair (again 13) pods
listed-IsFair pods listed =
    let same : web ∷ logger ∷ batch ∷ [] ≡ pods = cc in
    subst (λ (ps : List Pod). IsFair (again 13) ps) same fair

drain_node-returns_example : (drain_node drainer (concat (again 13)) []).0 ≢ none
drain_node-returns_example = drain_node-returns drainer (again 13) [] drainer-IsFinite listed-IsFair

pub cordoned_ :
    (opts : Options) (node : Node) → (cordoned_by (willing_drainer opts node) []).0 ≡ none
unfolding cordon_node
cordoned_ opts node = ground arith

pub found_ :
    (opts : Options) (node : Node)
    → (discovered_by (willing_drainer opts node) []).0 ≡ ok (codes "policy/v1beta1")
unfolding support_eviction policy_group version_for bytes_eq
found_ opts node = refl

-- A willing server lets every node be drained, with any options.
pub drains_always :
    (opts : Options) (node : Node)
    → (drain_node (willing_drainer opts node) (concat (again 13)) []).0 ≡ some none
drains_always opts node =
    drain_node-drains (willing_drainer opts node) (again 13) [] (codes "policy/v1beta1")
      (web ∷ logger ∷ batch ∷ []) (cordoned_ opts node) (found_ opts node) refl
      (all_evicted opts node (codes "policy/v1beta1")) fair (untimed 13)

drain_node-drains_example :
    (drain_node (willing_drainer options node_a) (concat (again 13)) []).0 ≡ some none
drain_node-drains_example =
    drain_node-drains (willing_drainer options node_a) (again 13) [] (codes "policy/v1beta1")
      (web ∷ logger ∷ batch ∷ []) (cordoned_ options node_a) (found_ options node_a) refl
      (all_evicted options node_a (codes "policy/v1beta1")) fair (untimed 13)
