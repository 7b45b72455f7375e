-- ===== src/Plugins/Registry.antt =====
-- What the map of node providers holds once it has been loaded.
use node_reaper.Base.{
  ◌≡◌, refl, true, false, some, List, [], ◌∷◌, ◌++◌, arith, Bytes, bytes_eq_iff, Result, ok, err,
  Error, Result-cases, Bool-cases, inl, inr, subst,
}
use node_reaper.Base.Table.{lookup, insert, contains, HasDistinctKeys, insert-HasDistinctKeys}
use node_reaper.Reaper.Effects.{NodeProvider}
use node_reaper.Plugins.{
  NodeProviders, Plugins, returned, panicked, of_result, or_plugins, ◌>>>◌, add_provider,
  load_plugin_file, load_files, load_directory, merge, load_path, load_paths, load_plugins,
}
use node_reaper.Plugins.Ensures.{
  Ensures, EnsuresOutcome, Ensures->>=, Ensures-any, EnsuresOutcome->>>, >>>-stuck, returned-cases,
  any_outcome, of_result-Ensures,
}

-- Every provider stands under its own type, once.
abbrev pub IsKeyed : NodeProviders → Type 0
IsKeyed [] = Unit
IsKeyed ((k, p) ∷ t) = (p.type ≡ k) × IsKeyed t

pub record IsRegistry (t : NodeProviders) : Type 0 where
  pub keyed : IsKeyed t
  pub distinct : HasDistinctKeys t

insert-IsKeyed : (p : NodeProvider) (t : NodeProviders) → IsKeyed t → IsKeyed (insert p.type p t)
unfolding insert
insert-IsKeyed p [] h = (refl, tt)
insert-IsKeyed p ((k, q) ∷ t) h = ground (arith, insert-IsKeyed p t h.1)

-- A provider is found under its own type only.
pub lookup-type :
    (t : NodeProviders) (k : Bytes) (p : NodeProvider)
    → IsKeyed t
    → lookup k t ≡ some p
    → p.type ≡ k
unfolding lookup
lookup-type [] k p h e = cc
lookup-type ((j, q) ∷ t) k p h e = ground (arith, bytes_eq_iff j k, lookup-type t k p h.1)

empty-IsRegistry : IsRegistry []
empty-IsRegistry = record { keyed = tt; distinct = tt }

add_provider-IsRegistry :
    (p : NodeProvider) (t : NodeProviders) → IsRegistry t → Ensures IsRegistry (add_provider p t)
add_provider-IsRegistry p t h = elim (Bool-cases (contains p.type t)) [
  | inl old ↦ rw old tt
  | inr new ↦ rw new (record {
    keyed = insert-IsKeyed p t h.keyed;
    distinct = insert-HasDistinctKeys p.type p t h.distinct;
  })
]

merge-IsRegistry :
    (ps : List NodeProvider) (t : NodeProviders) → IsRegistry t → Ensures IsRegistry (merge ps t)
unfolding merge
merge-IsRegistry [] t h = h
merge-IsRegistry (p ∷ ps) t h =
    Ensures->>= {P = IsRegistry} IsRegistry (add_provider p t) (merge ps)
      (add_provider-IsRegistry p t h) (λ t' h'. merge-IsRegistry ps t' h')

module _ {Plugin : Type 0} (env : Plugins Plugin) where
  load_file-IsRegistry :
      (r : Result NodeProvider) (t : NodeProviders)
      → IsRegistry t
      → Ensures IsRegistry (elim r [ err e ↦ ok t | ok p ↦ add_provider p t ])
  load_file-IsRegistry (ok p) t h = add_provider-IsRegistry p t h
  load_file-IsRegistry (err e) t h = h

  load_files-IsRegistry :
      (path : Bytes) (names : List Bytes) (t : NodeProviders)
      → IsRegistry t
      → Ensures IsRegistry (load_files env path names t)
  unfolding load_files
  load_files-IsRegistry path [] t h = h
  load_files-IsRegistry path (name ∷ names) t h = Ensures-any IsRegistry _ _ (λ abs_path.
      Ensures->>= {P = IsRegistry} IsRegistry _ _
        (load_file-IsRegistry (load_plugin_file env abs_path) t h)
        (λ t' h'. load_files-IsRegistry path names t' h'))

  -- The branches of a round.
  pub load_path_missing :
      (path : Bytes) (t : NodeProviders) (e : Error)
      → env.is_dir path ≡ err e
      → load_path env path t ≡ returned t
  unfolding load_path
  load_path_missing path t e missing = ground arith

  pub load_path_directory :
      (path : Bytes) (t : NodeProviders)
      → env.is_dir path ≡ ok true
      → load_path env path t
        ≡ (of_result (load_directory env path) >>> λ found. of_result (merge (env.range found) t))
  unfolding load_path
  load_path_directory path t directory = rw (directory, load_path)

  pub load_path_file :
      (path : Bytes) (t : NodeProviders) (p : NodeProvider)
      → env.is_dir path ≡ ok false
      → load_plugin_file env path ≡ ok p
      → load_path env path t ≡ of_result (add_provider p t)
  unfolding load_path
  load_path_file path t p file loaded = ground arith

  pub load_path_panics :
      (path : Bytes) (t : NodeProviders) (e : Error)
      → env.is_dir path ≡ ok false
      → load_plugin_file env path ≡ err e
      → load_path env path t ≡ panicked
  unfolding load_path
  load_path_panics path t e file failed = ground arith

  load_path-IsRegistry :
      (path : Bytes) (t : NodeProviders)
      → IsRegistry t
      → EnsuresOutcome IsRegistry (load_path env path t)
  load_path-IsRegistry path t h = elim (Result-cases (env.is_dir path)) [
    | inr (e, missing) ↦ rw (load_path_missing path t e missing) h
    | inl (true, directory) ↦ rw (load_path_directory path t directory) (
        EnsuresOutcome->>> {A = NodeProviders} {P = λ found. Unit} IsRegistry
          (of_result (load_directory env path)) (λ found. of_result (merge (env.range found) t))
          (any_outcome (of_result (load_directory env path)))
          (λ found known. of_result-Ensures IsRegistry _ (merge-IsRegistry (env.range found) t h)))
    | inl (false, file) ↦ elim (Result-cases (load_plugin_file env path)) [
      | inl (p, loaded) ↦
          rw (load_path_file path t p file loaded)
            (of_result-Ensures IsRegistry _ (add_provider-IsRegistry p t h))
      | inr (e, failed) ↦ rw (load_path_panics path t e file failed) tt
    ]
  ]

  load_paths-IsRegistry :
      (paths : List Bytes) (t : NodeProviders)
      → IsRegistry t
      → EnsuresOutcome IsRegistry (load_paths env paths t)
  unfolding load_paths
  load_paths-IsRegistry [] t h = h
  load_paths-IsRegistry (path ∷ paths) t h =
      EnsuresOutcome->>> {P = IsRegistry} IsRegistry (load_path env path t) (load_paths env paths)
        (load_path-IsRegistry path t h) (λ t' h'. load_paths-IsRegistry paths t' h')

  -- The map that is loaded, whatever the plugins, has each provider under its own type, and no type
  -- twice.
  pub load_plugins-IsRegistry :
      (paths : List Bytes) (t : NodeProviders) → load_plugins env paths ≡ returned t → IsRegistry t
  unfolding load_plugins
  load_plugins-IsRegistry paths t e =
      subst (EnsuresOutcome IsRegistry) e
        (load_paths-IsRegistry (or_plugins env paths) [] empty-IsRegistry)

  -- A path given to the program that is a file and does not load.
  abbrev pub IsBroken : Bytes → Type 0
  IsBroken path = (env.is_dir path ≡ ok false) × (e : Error) × (load_plugin_file env path ≡ err e)

  load_paths-panics :
      (before : List Bytes) (path : Bytes) (after : List Bytes) (t t' : NodeProviders)
      → load_paths env before t ≡ returned t'
      → IsBroken path
      → load_paths env (before ++ path ∷ after) t ≡ panicked
  unfolding load_paths
  load_paths-panics [] path after t t' loaded (file, e, failed) =
      rw (load_path_panics path t e file failed) refl
  load_paths-panics (first ∷ before) path after t t' loaded broken =
      elim (returned-cases (load_path env first t)) [
        | inl (u, here) ↦
            rw here (load_paths-panics before path after u t' (rw here at loaded) broken)
        | inr other ↦
            absurd (>>>-stuck (load_path env first t) (load_paths env before) t' other loaded)
      ]

  -- Where the paths given before it have been loaded, a path that is a file and does not load makes the
  -- program panic, whatever paths come after it.
  pub load_plugins-panics :
      (before : List Bytes) (path : Bytes) (after : List Bytes) (t : NodeProviders)
      → load_paths env before [] ≡ returned t
      → IsBroken path
      → load_plugins env (before ++ path ∷ after) ≡ panicked
  unfolding load_plugins
  load_plugins-panics [] path after t loaded broken =
      load_paths-panics [] path after [] t loaded broken
  load_plugins-panics (first ∷ before) path after t loaded broken =
      load_paths-panics (first ∷ before) path after [] t loaded broken

  -- A file that does not load is passed over if it is found in a directory.
  pub load_files-skips :
      (path name abs_path : Bytes) (names : List Bytes) (t : NodeProviders) (e : Error)
      → env.abs (path ++ b'/' ∷ name) ≡ ok abs_path
      → load_plugin_file env abs_path ≡ err e
      → load_files env path (name ∷ names) t ≡ load_files env path names t
  unfolding load_files
  load_files-skips path name abs_path names t e found failed = ground arith
