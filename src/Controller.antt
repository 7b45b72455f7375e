-- ===== src/Controller.antt =====
-- pkg/nodereaper/controller.go, with `newNodeReaper` and `newGetNodesFn` of nodereaper.go: the reaper as
-- the controller of the kooper library drives it, which hands the events of nodes to the handler one
-- after the other.
pub mod Protocol
use node_reaper.Base.{ℕ, List, [], ◌∷◌, Option, Bytes, Result, Error, context, getting_nodes}
use node_reaper.Base.Int.{ℤ}
use node_reaper.Base.Table.{Table}
use node_reaper.Config.Defs.{Config}
use node_reaper.Node.{Node}
use node_reaper.Predicate.{Govaluate}
use node_reaper.Health.{Float64}
use node_reaper.Reaper.Effects.{NodeReaper, NodeProvider, Instrumenter, State, Options, Call}
use node_reaper.Reaper.{add, delete}

-- What the reaper is given besides its configuration and its providers: the client of the API server,
-- as the list of the nodes and the drain of one, the clock, govaluate and float64.
pub record Surroundings (Expr F : Type 0) : Type 0 where
  pub list_nodes : List Call → Result (List Node)
  pub drain_node_fn : List Call → Node → Options → Option Error
  pub since : List Call → ℕ → ℤ
  pub govaluate : Govaluate Expr
  pub float64 : Float64 F

-- `newGetNodesFn`
abbrev pub new_get_nodes_fn : (List Call → Result (List Node)) → List Call → Result (List Node)
new_get_nodes_fn list_nodes calls = context getting_nodes (list_nodes calls)

-- The nodes of a cluster as the client has them: `List` and `Watch`.
pub record NodesClient (ListOptions NodeList Watch : Type 0) : Type 0 where
  pub list : ListOptions → Result NodeList
  pub watch : ListOptions → Result Watch

-- The lister and watcher of a `retrieve.Resource` of the kooper library.
pub record Resource (ListOptions NodeList Watch : Type 0) : Type 0 where
  pub list_func : ListOptions → Result NodeList
  pub watch_func : ListOptions → Result Watch

-- `newNodeRetriever`
abbrev pub new_node_retriever :
    {ListOptions NodeList Watch : Type 0}
    → NodesClient ListOptions NodeList Watch
    → Resource ListOptions NodeList Watch
new_node_retriever client = record {
  list_func = λ options. client.list options;
  watch_func = λ options. client.watch options;
}

-- `newNodeReaper`
abbrev pub new_node_reaper :
    {Expr F : Type 0}
    → Config
    → Surroundings Expr F
    → Table NodeProvider
    → Instrumenter
    → NodeReaper Expr F
new_node_reaper cfg around providers m_reg = record {
  cfg = cfg;
  node_providers = providers;
  get_nodes_fn = new_get_nodes_fn around.list_nodes;
  drain_node_fn = around.drain_node_fn;
  m_reg = m_reg;
  since = around.since;
  govaluate = around.govaluate;
  float64 = around.float64;
}

-- `SetGetNodesFn` and `SetDrainNodeFn`
abbrev pub set_get_nodes_fn :
    {Expr F : Type 0} → (List Call → Result (List Node)) → NodeReaper Expr F → NodeReaper Expr F
set_get_nodes_fn fn nr = record nr { get_nodes_fn = fn }

abbrev pub set_drain_node_fn :
    {Expr F : Type 0}
    → (List Call → Node → Options → Option Error)
    → NodeReaper Expr F
    → NodeReaper Expr F
set_drain_node_fn fn nr = record nr { drain_node_fn = fn }

-- `Handler`, without its logger, and `newHandler`
pub record Handler (Expr F : Type 0) : Type 0 where
  pub node_reaper : NodeReaper Expr F

abbrev pub new_handler : {Expr F : Type 0} → NodeReaper Expr F → Handler Expr F
new_handler nr = record { node_reaper = nr }

-- An event of the watched nodes: one was added or changed, or one was deleted.
pub data Event : Type 0 where
  added : Node → Event
  deleted : Bytes → Event

module _ {Expr F : Type 0} (nr : NodeReaper Expr F) where
  abbrev pub handle : Event → State → State
  handle (added node) s = (add nr node s).1
  handle (deleted name) s = (delete nr name s).1

  unfoldable pub handle_all : List Event → State → State
  handle_all [] s = s
  handle_all (e ∷ es) s = handle_all es (handle e s)

-- `New`: the controller, by what it does with a sequence of events.
unfoldable pub new_controller :
    {Expr F : Type 0}
    → Config
    → Surroundings Expr F
    → Table NodeProvider
    → Instrumenter
    → List Event
    → State
    → State
unfolding handle_all
new_controller cfg around providers m_reg =
    let nr = new_node_reaper cfg around providers m_reg in
    let hand = new_handler nr in handle_all hand.node_reaper
