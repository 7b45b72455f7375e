-- ===== src/Reaper/Effects.antt =====
-- What a run of the reaper changes: the counters of pkg/metrics and the calls that leave the program.
-- The answer of a call from outside may depend on all calls before it.
use node_reaper.Base.{ℕ, ◌+◌, Bool, Option, List, ◌∷◌, Bytes, Result, Error}
use node_reaper.Base.Int.{ℤ}
use node_reaper.Base.Table.{Table}
use node_reaper.Config.Defs.{Config}
use node_reaper.Node.{Node}
use node_reaper.Predicate.{Govaluate}
use node_reaper.Health.{Float64}

-- The counters of `PromMetrics`.
pub record Metrics : Type 0 where
  pub drain_total : ℕ
  pub drain_fail : ℕ
  pub reap_total : ℕ
  pub reap_fail : ℕ

abbrev pub inc_drain_total : Metrics → Metrics
inc_drain_total m = record m { drain_total = m.drain_total + 1 }

abbrev pub inc_drain_fail : Metrics → Metrics
inc_drain_fail m = record m { drain_fail = m.drain_fail + 1 }

abbrev pub inc_reap_total : Metrics → Metrics
inc_reap_total m = record m { reap_total = m.reap_total + 1 }

abbrev pub inc_reap_fail : Metrics → Metrics
inc_reap_fail m = record m { reap_fail = m.reap_fail + 1 }

-- `Instrumenter`, by what its methods do to the counters.
pub record Instrumenter : Type 0 where
  pub inc_node_drain_total : Metrics → Metrics
  pub inc_node_drain_fail : Metrics → Metrics
  pub inc_node_reap_total : Metrics → Metrics
  pub inc_node_reap_fail : Metrics → Metrics

-- `PromMetrics` as one
abbrev pub prom_metrics : Instrumenter
prom_metrics = record {
  inc_node_drain_total = inc_drain_total;
  inc_node_drain_fail = inc_drain_fail;
  inc_node_reap_total = inc_reap_total;
  inc_node_reap_fail = inc_reap_fail;
}

-- `NewDummyMetrics`: nothing is counted.
abbrev dummy_inc : Metrics → Metrics
dummy_inc m = m

abbrev pub new_dummy_metrics : Instrumenter
new_dummy_metrics = record {
  inc_node_drain_total = dummy_inc;
  inc_node_drain_fail = dummy_inc;
  inc_node_reap_total = dummy_inc;
  inc_node_reap_fail = dummy_inc;
}

-- `drainer.Options`
pub record Options : Type 0 where
  pub timeout : ℤ
  pub pod_deletion_grace_period : ℤ
  pub use_eviction : Bool

-- A call of `getNodesFn`, of `drainNodeFn`, or of the `Reap` of the provider with a name.
pub data Call : Type 0 where
  get_nodes : Call
  drain_node : Node → Options → Call
  reap_node : Bytes → Node → Call

-- The counters, and the calls so far, the latest first.
pub record State : Type 0 where
  pub metrics : Metrics
  pub calls : List Call

-- `NodeProvider`, by what its `Reap` answers after the calls so far.
pub record NodeProvider : Type 0 where
  pub type : Bytes
  pub reap : List Call → Node → Option Error

-- `NodeReaper` with the functions that it calls; `since` is `time.Since` in nanoseconds, whose clock is read after
-- the calls so far. The client
-- of the API server is behind `get_nodes_fn` and `drain_node_fn`; the logger is left out.
pub record NodeReaper (Expr F : Type 0) : Type 0 where
  pub cfg : Config
  pub node_providers : Table NodeProvider
  pub get_nodes_fn : List Call → Result (List Node)
  pub drain_node_fn : List Call → Node → Options → Option Error
  pub m_reg : Instrumenter
  pub since : List Call → ℕ → ℤ
  pub govaluate : Govaluate Expr
  pub float64 : Float64 F

abbrev pub with_metrics : {Expr F : Type 0} → Instrumenter → NodeReaper Expr F → NodeReaper Expr F
with_metrics m nr = record nr { m_reg = m }

-- A call leaves its trace.
abbrev pub called : Call → State → State
called c s = record s { calls = c ∷ s.calls }

abbrev pub count_with : (Metrics → Metrics) → State → State
count_with f s = record s { metrics = f s.metrics }
