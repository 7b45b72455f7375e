-- ===== src/Metrics.antt =====
-- pkg/metrics/prom.go: `NewPrometheusMetrics`, over the registry of Prometheus and the mux of net/http.
-- The counters themselves are in Reaper.Effects.
use node_reaper.Base.{
  ◌≡◌, ◌≢◌, refl, Bool, false, ◌||◌, Option, none, some, List, [], ◌∷◌, ◌++◌, map, All, arith,
  Bytes, codes, bytes_eq, bytes_eq_iff, Error, if◌then◌else◌, Bool-cases, inl, inr,
}

-- `prometheus.CounterOpts`
pub record CounterOpts : Type 0 where
  pub namespace : Bytes
  pub subsystem : Bytes
  pub name : Bytes
  pub help : Bytes

abbrev pub drain_total_opts : CounterOpts
drain_total_opts = record {
  namespace = codes "node_reaper";
  subsystem = codes "controller";
  name = codes "drain_total";
  help = codes "Number of nodes drained by the operator";
}

abbrev pub drain_fail_opts : CounterOpts
drain_fail_opts = record {
  namespace = codes "node_reaper";
  subsystem = codes "controller";
  name = codes "drain_fail_total";
  help = codes "Number of nodes unsuccessfully drained by the operator";
}

abbrev pub reap_total_opts : CounterOpts
reap_total_opts = record {
  namespace = codes "node_reaper";
  subsystem = codes "controller";
  name = codes "reap_total";
  help = codes "Number of nodes reaped by the operator";
}

abbrev pub reap_fail_opts : CounterOpts
reap_fail_opts = record {
  namespace = codes "node_reaper";
  subsystem = codes "controller";
  name = codes "reap_fail_total";
  help = codes "Number of nodes unsuccessfully reaped by the operator";
}

-- `prometheus.NewCounter`, and `Register` at a registry with some counters.
pub record Prometheus (Counter : Type 0) : Type 0 where
  pub new_counter : CounterOpts → Counter
  pub register : List Counter → Counter → Option Error

-- `PromMetrics`, with the counters that are registered
pub record PromMetrics (Counter : Type 0) : Type 0 where
  pub node_drain_total : Counter
  pub node_drain_fail : Counter
  pub node_reap_total : Counter
  pub node_reap_fail : Counter
  pub registry : List Counter
  pub path : Bytes

-- Where a process may panic, `none` is the panic.
abbrev then_ : {A B : Type 0} → Option A → (A → Option B) → Option B
then_ none f = none
then_ (some a) f = f a

-- `mux.Handle`, for the patterns that the mux has; it refuses an empty pattern, and one that it has.
abbrev pub has_pattern : Bytes → List Bytes → Bool
has_pattern path [] = false
has_pattern path (p ∷ ps) = bytes_eq p path || has_pattern path ps

unfoldable pub mux_handle : Bytes → List Bytes → Option (List Bytes)
mux_handle [] mux = none
mux_handle (c ∷ path) mux = if has_pattern (c ∷ path) mux then none else some ((c ∷ path) ∷ mux)

module _ {Counter : Type 0} (prometheus : Prometheus Counter) where
  -- `MustRegister` for one collector
  unfoldable pub must_register : List Counter → Counter → Option (List Counter)
  must_register registry c = elim (prometheus.register registry c) [
    | none ↦ some (registry ++ c ∷ [])
    | some e ↦ none
  ]

  -- `PromMetrics.register`
  unfoldable pub register : PromMetrics Counter → Option (PromMetrics Counter)
  unfolding must_register
  register p = then_ (must_register p.registry p.node_drain_total) (λ r1.
      then_ (must_register r1 p.node_drain_fail) (λ r2.
        then_ (must_register r2 p.node_reap_total) (λ r3.
          then_ (must_register r3 p.node_reap_fail) (λ r4. some (record p { registry = r4 })))))

  -- `NewPrometheusMetrics`, for the patterns of the mux
  unfoldable pub new_prometheus_metrics :
      Bytes → List Bytes → Option (PromMetrics Counter × List Bytes)
  unfolding register mux_handle
  new_prometheus_metrics path mux =
      then_
        (register (record {
          node_drain_total = prometheus.new_counter drain_total_opts;
          node_drain_fail = prometheus.new_counter drain_fail_opts;
          node_reap_total = prometheus.new_counter reap_total_opts;
          node_reap_fail = prometheus.new_counter reap_fail_opts;
          registry = [];
          path = path;
        }))
        (λ p. then_ (mux_handle path mux) (λ mux'. some (p, mux')))

-- `BuildFQName`, where no part is empty
abbrev pub fq_name : CounterOpts → Bytes
fq_name o = o.namespace ++ codes "_" ++ o.subsystem ++ codes "_" ++ o.name

apart : (a b : Bytes) → bytes_eq a b ≡ false → a ≢ b
apart a b h e = ground (arith, bytes_eq_iff a b)

-- What is documented of a registry: a counter is taken if none with its full name is there.
pub record IsPrometheus {Counter : Type 0} (prometheus : Prometheus Counter) : Type 0 where
  pub takes_new :
      (os : List CounterOpts) (o : CounterOpts)
      → All (λ (x : CounterOpts). fq_name x ≢ fq_name o) os
      → prometheus.register (map prometheus.new_counter os) (prometheus.new_counter o) ≡ none

module _ {Counter : Type 0} (prometheus : Prometheus Counter) where
  -- The metrics that are made.
  abbrev pub made : Bytes → PromMetrics Counter
  made path = record {
    node_drain_total = prometheus.new_counter drain_total_opts;
    node_drain_fail = prometheus.new_counter drain_fail_opts;
    node_reap_total = prometheus.new_counter reap_total_opts;
    node_reap_fail = prometheus.new_counter reap_fail_opts;
    registry =
        map prometheus.new_counter
          (drain_total_opts ∷ drain_fail_opts ∷ reap_total_opts ∷ reap_fail_opts ∷ []);
    path = path;
  }

module _ {Counter : Type 0} (prometheus : Prometheus Counter) (is : IsPrometheus prometheus) where
  registers :
      (os : List CounterOpts) (o : CounterOpts)
      → All (λ (x : CounterOpts). fq_name x ≢ fq_name o) os
      → must_register prometheus (map prometheus.new_counter os) (prometheus.new_counter o)
        ≡ some (map prometheus.new_counter os ++ prometheus.new_counter o ∷ [])
  unfolding must_register
  registers os o new = rw (must_register, is.takes_new os o new) refl

  -- The four counters have different full names.
  register_lem :
      (path : Bytes)
      → register prometheus (record (made prometheus path) { registry = [] })
        ≡ some (made prometheus path)
  unfolding register bytes_eq
  register_lem path =
      rw
        (
          registers [] drain_total_opts tt,
          registers (drain_total_opts ∷ []) drain_fail_opts (apart _ _ refl, tt),
          registers (drain_total_opts ∷ drain_fail_opts ∷ []) reap_total_opts
              (apart _ _ refl, (apart _ _ refl, tt)),
          registers (drain_total_opts ∷ drain_fail_opts ∷ reap_total_opts ∷ []) reap_fail_opts
              (apart _ _ refl, (apart _ _ refl, (apart _ _ refl, tt))),
        )
        refl

  -- All four counters are registered and the path is served, unless the mux refuses the path, since it
  -- is empty or taken, which is a panic.
  pub new_prometheus_metrics_lem :
      (path : Bytes) (mux : List Bytes)
      → new_prometheus_metrics prometheus path mux
        ≡ (if has_pattern path ([] ∷ mux) then none else some (made prometheus path, path ∷ mux))
  unfolding new_prometheus_metrics mux_handle bytes_eq
  new_prometheus_metrics_lem [] mux = rw (register_lem []) refl
  new_prometheus_metrics_lem (c ∷ path) mux = elim (Bool-cases (has_pattern (c ∷ path) mux)) [
    | inl taken ↦ rw (register_lem (c ∷ path), taken) refl
    | inr free ↦ rw (register_lem (c ∷ path), free) refl
  ]
