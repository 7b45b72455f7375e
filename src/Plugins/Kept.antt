-- ===== src/Plugins/Kept.antt =====
-- Loading refuses a type that is there already: cmd/nodereaper/main.go never replaces a provider.
use node_reaper.Base.{
  ◌≡◌, true, false, some, List, [], ◌∷◌, arith, Bytes, bytes_eq_iff, Result, ok, err, Result-cases,
  Bool-cases, inl, inr,
}
use node_reaper.Base.Table.{lookup, insert, contains, lookup-insert}
use node_reaper.Reaper.Effects.{NodeProvider}
use node_reaper.Plugins.{
  NodeProviders, Plugins, of_result, add_provider, load_plugin_file, load_files, load_directory,
  merge, load_path, load_paths,
}
use node_reaper.Plugins.Ensures.{
  Ensures, EnsuresOutcome, Ensures->>=, Ensures-any, EnsuresOutcome->>>, any_outcome,
  of_result-Ensures,
}
use node_reaper.Plugins.Registry.{
  load_path_missing, load_path_directory, load_path_file, load_path_panics,
}

-- Every provider of the first map stands under its type in the second one.
abbrev pub Keeps : NodeProviders → NodeProviders → Type 0
Keeps t t' = (k : Bytes) (p : NodeProvider) → lookup k t ≡ some p → lookup k t' ≡ some p

insert-Keeps :
    (p : NodeProvider) (t : NodeProviders) → contains p.type t ≡ false → Keeps t (insert p.type p t)
insert-Keeps p t new k q found =
    rw (lookup-insert p.type k p t) (ground (arith, bytes_eq_iff p.type k))

add_provider-Keeps :
    (p : NodeProvider) (t t' : NodeProviders) → Keeps t t' → Ensures (Keeps t) (add_provider p t')
add_provider-Keeps p t t' h = elim (Bool-cases (contains p.type t')) [
  | inl old ↦ rw old tt
  | inr new ↦ rw new (λ k q found. insert-Keeps p t' new k q (h k q found))
]

merge-Keeps :
    (ps : List NodeProvider) (t t' : NodeProviders) → Keeps t t' → Ensures (Keeps t) (merge ps t')
unfolding merge
merge-Keeps [] t t' h = h
merge-Keeps (p ∷ ps) t t' h =
    Ensures->>= {P = Keeps t} (Keeps t) (add_provider p t') (merge ps) (add_provider-Keeps p t t' h)
      (λ u h'. merge-Keeps ps t u h')

module _ {Plugin : Type 0} (env : Plugins Plugin) where
  load_file-Keeps :
      (r : Result NodeProvider) (t t' : NodeProviders)
      → Keeps t t'
      → Ensures (Keeps t) (elim r [ err e ↦ ok t' | ok p ↦ add_provider p t' ])
  load_file-Keeps (ok p) t t' h = add_provider-Keeps p t t' h
  load_file-Keeps (err e) t t' h = h

  load_files-Keeps :
      (path : Bytes) (names : List Bytes) (t t' : NodeProviders)
      → Keeps t t'
      → Ensures (Keeps t) (load_files env path names t')
  unfolding load_files
  load_files-Keeps path [] t t' h = h
  load_files-Keeps path (name ∷ names) t t' h = Ensures-any (Keeps t) _ _ (λ abs_path.
      Ensures->>= {P = Keeps t} (Keeps t) _ _
        (load_file-Keeps (load_plugin_file env abs_path) t t' h)
        (λ u h'. load_files-Keeps path names t u h'))

  load_path-Keeps :
      (path : Bytes) (t t' : NodeProviders)
      → Keeps t t'
      → EnsuresOutcome (Keeps t) (load_path env path t')
  load_path-Keeps path t t' h = elim (Result-cases (env.is_dir path)) [
    | inr (e, missing) ↦ rw (load_path_missing env path t' e missing) h
    | inl (true, directory) ↦ rw (load_path_directory env path t' directory) (
        EnsuresOutcome->>> {A = NodeProviders} {P = λ found. Unit} (Keeps t)
          (of_result (load_directory env path)) (λ found. of_result (merge (env.range found) t'))
          (any_outcome (of_result (load_directory env path)))
          (λ found known. of_result-Ensures (Keeps t) _ (merge-Keeps (env.range found) t t' h)))
    | inl (false, file) ↦ elim (Result-cases (load_plugin_file env path)) [
      | inl (p, loaded) ↦
          rw (load_path_file env path t' p file loaded)
            (of_result-Ensures (Keeps t) _ (add_provider-Keeps p t t' h))
      | inr (e, failed) ↦ rw (load_path_panics env path t' e file failed) tt
    ]
  ]

  load_paths-from :
      (paths : List Bytes) (t t' : NodeProviders)
      → Keeps t t'
      → EnsuresOutcome (Keeps t) (load_paths env paths t')
  unfolding load_paths
  load_paths-from [] t t' h = h
  load_paths-from (path ∷ paths) t t' h =
      EnsuresOutcome->>> {P = Keeps t} (Keeps t) (load_path env path t') (load_paths env paths)
        (load_path-Keeps path t t' h) (λ u h'. load_paths-from paths t u h')

  -- Where paths are loaded on top of a map, or the files of a directory are, and a map is returned, every
  -- provider of the first map still stands under its type: a plugin of a type that is there already does not
  -- take its place.
  pub load_paths-Keeps :
      (paths : List Bytes) (path : Bytes) (names : List Bytes) (t : NodeProviders)
      → EnsuresOutcome (Keeps t) (load_paths env paths t)
        × Ensures (Keeps t) (load_files env path names t)
  load_paths-Keeps paths path names t = (
    load_paths-from paths t t (λ k p found. found),
    load_files-Keeps path names t t (λ k p found. found),
  )
