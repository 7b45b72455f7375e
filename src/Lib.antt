-- ===== src/Lib.antt =====
-- Node reaper drains unhealthy Kubernetes nodes and deletes the machines behind them. This library
-- models its decisions, its drain and its configuration, and proves what they promise. Paths are from
-- the root of the repository.
--
-- The program starts in cmd/nodereaper/main.go: it reads the flags, loads the configuration
-- (pkg/config) and the node providers (Go plugins), and hands them to a controller. The controller
-- calls a handler (pkg/nodereaper) for each event of a node. A run evaluates predicates on the node
-- and on the cluster, drains the node (pkg/drainer), and has a provider terminate the machine.
--
--   Base       bytes, errors as the places that make them, results, lists, and association lists for
--              maps (Base.Table); Base.Int has int64 as an integer
--   Config     pkg/config/config.go: Config.Limit is `MaxNodesUnhealthy`, Config.Load is `Load`,
--              Config.Parse is `File.Parse` with the setters, Config.Duration the conversion of seconds,
--              Config.Print is `Config.Log`, and Config.Decimal how fmt prints a number
--   Health     pkg/nodereaper/cluster_health_calculator.go
--   Node       the parts of `corev1.Node` that are read
--   Predicate  pkg/nodereaper/evaluable_predicate.go; Predicate.Formula has comparisons that are joined,
--              Predicate.Defaults the default predicates of pkg/config/config.go as such, and
--              Predicate.Labels the labels as a map without an order
--   Reaper     pkg/nodereaper/nodereaper.go and handler.go: `shouldReap`, `drain`, `reap`, `Run`, `Add`;
--              the state is the counters of pkg/metrics/prom.go and the trace of outgoing calls;
--              Reaper.Eligible says when exactly `shouldReap` says yes, Reaper.Complete
--              when a node is reaped, Reaper.Accounts what the counters hold, and Reaper.Defaults what the default
--              configuration makes of it
--   Drainer    pkg/drainer/drain.go: the cordon, discovery, the filter of pods and `waitForDelete`;
--              Drainer.Eviction has the goroutines of `evictOrDeletePods` as a step relation,
--              Drainer.Eviction.Timing its time, Drainer.Eviction.Failure its errors and
--              Drainer.Eviction.Fair its schedules that give every goroutine a turn; Drainer.Stuck has a
--              pod that never goes; Drainer.Functions is
--              `NodeDrainer` with its setters, Drainer.Client the functions that ask the API server, with
--              `NewNodeDrainer`, and Drainer.DrainNode the whole of `DrainNode`
--   Log        pkg/log: the levels and the interface (log.go, dummy.go), Log.Zap the logger of zap.go,
--              Log.Buffer the buffer that its messages are put together in, and Log.Overlap that buffer
--              under two goroutines
--   Metrics    `NewPrometheusMetrics` of pkg/metrics/prom.go
--   Plugins    pkg/nodereaper/node_provider.go and the loading of plugins in cmd/nodereaper/main.go;
--              Plugins.Aws is pkg/plugins/aws/main.go
--   Startup    the flags and `Main.Run` up to the start of the controller; Startup.Process is the rest of
--              it, the goroutines that it starts and the `select` that ends it, as a step relation
--   Controller pkg/nodereaper/controller.go with retriever.go: the reaper under any sequence of events;
--              Controller.Protocol is an abstract account of the calls that it may make
--   Program    the reaper over the drainer: `newDrainNodeFn`
--   Examples   tests of the definitions, and the theorems at concrete inputs
--
-- A method takes the state before its call and returns the state after it. `(value, error)` is a
-- result, and an `error` alone an option; the text of an error is not modelled, only the place that
-- makes it. Strings are their bytes.
--
-- Outside the repository, and so parameters: the expressions of govaluate (`Predicate.Govaluate`),
-- float64 (`Health.Float64`; `Health.Float.IsIeee` states what the percentages need of it, and fractions
-- of natural numbers have it), reading a file and decoding YAML (`Config.Load.Files`), package plugin
-- and the file system (`Plugins.Plugins`), the environment (`Startup.Env`) and the Kubernetes client
-- (`Startup.Kubernetes`), `apierrors` (`Drainer.Api.ApiErrors`), `wait.PollImmediate`
-- (`Drainer.Api.Poll`, with what is documented of it in `IsPoll`), whether zap builds a configuration, and
-- the registry of Prometheus (`Metrics.Prometheus`, with `IsPrometheus`). What govaluate documents of
-- comparisons is `Predicate.Formula.Reads`. The kooper library hands over the events of nodes one after
-- the other. Answers of the API server, and what the clock says, are functions of the calls made so far, so
-- that the clock stands still between two events without a call.
--
-- An eviction runs under a schedule, a list that says which goroutine or which case of the `select`
-- comes next; a theorem on all schedules covers every interleaving. A goroutine is one step for an
-- attempt, one for its whole wait if that comes to an end, and one for a send, so that there is no fuel; a
-- wait that does not come to an end goes on at each of its steps. The bounds are those
-- of the source: uint64 for limits, int64 nanoseconds for durations. Numbers of nodes are not bounded,
-- but where float64 needs it.
--
-- Log.Overlap takes each operation on a buffer as one step, for two calls. Widths of fields are those that
-- fmt accepts, and the fields are in ASCII, as names of nodes are.
--
-- A Go map is an association list; where the program ranges over one, its order is the list's, and
-- Predicate.Labels is about all orders of the labels.
--
-- Not modelled: what the kooper library does with the lister and the watcher that it is given, the handler
-- of promhttp, what zap does with a message, and the messages that the parts log, but for those of
-- `Config.Log`.
pub mod Base
pub mod Config
pub mod Health
pub mod Node
pub mod Predicate
pub mod Reaper
pub mod Drainer
pub mod Log
pub mod Metrics
pub mod Plugins
pub mod Startup
pub mod Controller
pub mod Program
pub mod Examples
