-- ===== src/Plugins.antt =====
-- The loading of node providers: `LoadNodeProviderPlugin` of pkg/nodereaper/node_provider.go and the
-- functions of cmd/nodereaper/main.go that call it. What they log is left out.
pub mod Ensures
pub mod Registry
pub mod Kept
pub mod Aws
use node_reaper.Base.{
  ℕ, ◌≡◌, Bool, true, false, Option, none, some, List, [], ◌∷◌, ◌++◌, Bytes, codes, Result, ok, err,
  Error, failure, wrapped, context, ◌>>=◌, loading_directory, duplicate_plugin, loading_plugin,
  not_a_provider, if◌then◌else◌,
}
use node_reaper.Base.Table.{Table, insert, contains}
use node_reaper.Reaper.Effects.{NodeProvider}

abbrev pub NodeProviders : Type 0
NodeProviders = Table NodeProvider

-- A symbol of a plugin, which may be a node provider.
pub data Symbol : Type 0 where
  provider : NodeProvider → Symbol
  other : Symbol

-- Package plugin, the file system, and the order in which a map is ranged over.
pub record Plugins (Plugin : Type 0) : Type 0 where
  pub open_plugin : Bytes → Result Plugin
  pub lookup_symbol : Plugin → Bytes → Result Symbol
  -- `os.Stat`, as whether the path is a directory
  pub is_dir : Bytes → Result Bool
  -- `ioutil.ReadDir`, as the names of the entries
  pub read_dir : Bytes → Result (List Bytes)
  -- `filepath.Abs`
  pub abs : Bytes → Result Bytes
  pub range : NodeProviders → List NodeProvider

-- What a function returns, or that it panics.
pub data Outcome (A : Type 0) : Type 0 where
  returned : A → Outcome A
  refused : Error → Outcome A
  panicked : Outcome A

infixl 5 ◌>>>◌
abbrev pub ◌>>>◌ : {A B : Type 0} → Outcome A → (A → Outcome B) → Outcome B
returned a >>> f = f a
refused e >>> f = refused e
panicked >>> f = panicked

abbrev pub of_result : {A : Type 0} → Result A → Outcome A
of_result (ok a) = returned a
of_result (err e) = refused e

abbrev pub as_provider : Bytes → Symbol → Result NodeProvider
as_provider path (provider p) = ok p
as_provider path other = err (failure not_a_provider path)

-- The check that a type is new, and the entry in the map.
abbrev pub add_provider : NodeProvider → NodeProviders → Result NodeProviders
add_provider p plugins =
    if contains p.type plugins
    then err (failure duplicate_plugin p.type)
    else ok (insert p.type p plugins)

-- The loop over the plugins of a directory.
unfoldable pub merge : List NodeProvider → NodeProviders → Result NodeProviders
merge [] plugins = ok plugins
merge (p ∷ ps) plugins = do plugins' ← add_provider p plugins; merge ps plugins'

module _ {Plugin : Type 0} (env : Plugins Plugin) where
  -- `LoadNodeProviderPlugin`
  unfoldable pub load_plugin : Bytes → Result NodeProvider
  load_plugin path = do
    plugin ← context loading_plugin (env.open_plugin path)
    symbol ← context loading_plugin (env.lookup_symbol plugin (codes "NodeProvider"))
    as_provider path symbol

  -- `loadNodeProviderPluginFile`
  abbrev pub load_plugin_file : Bytes → Result NodeProvider
  load_plugin_file path = do p ← load_plugin path; ok p

  -- The loop of `loadNodeProviderPluginDirectory`: a file that does not load is passed over.
  unfoldable pub load_files : Bytes → List Bytes → NodeProviders → Result NodeProviders
  load_files path [] plugins = ok plugins
  load_files path (name ∷ names) plugins = do
    abs_path ← context loading_directory (env.abs (path ++ b'/' ∷ name))
    plugins' ← elim (load_plugin_file abs_path) [
      | err e ↦ ok plugins
      | ok p ↦ add_provider p plugins
    ]
    load_files path names plugins'

  -- `loadNodeProviderPluginDirectory`
  unfoldable pub load_directory : Bytes → Result NodeProviders
  load_directory path = do
    names ← context loading_directory (env.read_dir path)
    load_files path names []

  -- One round of `loadNodeProviderPlugins`. The error of a file that does not load is logged, and then
  -- `p.Type()` is called on nil.
  unfoldable pub load_path : Bytes → NodeProviders → Outcome NodeProviders
  load_path path plugins = elim (env.is_dir path) [
    | err e ↦ returned plugins
    | ok false ↦ elim (load_plugin_file path) [
      | err e ↦ panicked
      | ok p ↦ of_result (add_provider p plugins)
    ]
    | ok true ↦
        of_result (load_directory path) >>> λ found. of_result (merge (env.range found) plugins)
  ]

  unfoldable pub load_paths : List Bytes → NodeProviders → Outcome NodeProviders
  load_paths [] plugins = returned plugins
  load_paths (path ∷ paths) plugins = load_path path plugins >>> load_paths paths

  abbrev pub or_plugins : List Bytes → List Bytes
  or_plugins [] = codes "plugins" ∷ []
  or_plugins (path ∷ paths) = path ∷ paths

  -- `loadNodeProviderPlugins`
  unfoldable pub load_plugins : List Bytes → Outcome NodeProviders
  load_plugins paths = load_paths (or_plugins paths) []
