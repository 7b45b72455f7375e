-- ===== src/Config/Load.antt =====
-- `Load` of pkg/config/config.go. Reading the file and decoding its YAML over a value are parameters.
use node_reaper.Base.{
  true, ◌≡◌, ◌≢◌, ◌↔◌, ◌⊎◌, inl, inr, arith, Bytes, bytes_eq_iff, bytes_eq_refl, Result, ok, ◌>>=◌,
  if◌then◌else◌, Bool-cases, Result-cases, subst,
}
use node_reaper.Config.Defs.{File, default_config, zeroed_file, file_eq}

-- `ioutil.ReadFile` and `yaml.UnmarshalStrict(text, &cfg)`, which returns the value that it leaves.
pub record Files : Type 0 where
  pub read_file : Bytes → Result Bytes
  pub unmarshal_strict : Bytes → File → Result File

unfoldable pub load : Files → Bytes → Result File
load fs path = do
  cfg_yaml ← fs.read_file path
  cfg ← fs.unmarshal_strict cfg_yaml default_config
  ok (if file_eq cfg zeroed_file then default_config else cfg)

-- The comparison with the zero value decides equality.
file_eq_iff : (f g : File) → (file_eq f g ≡ true) ↔ (f ≡ g)
unfolding file_eq
file_eq_iff f g = (to, from)
  where
    to : file_eq f g ≡ true → f ≡ g
    to h = ground (
      arith,
      bytes_eq_iff f.reap_predicate g.reap_predicate,
      bytes_eq_iff f.unhealthy_predicate g.unhealthy_predicate,
      bytes_eq_iff f.max_nodes_unhealthy g.max_nodes_unhealthy,
      bytes_eq_iff f.max_nodes_unhealthy_in_same_zone g.max_nodes_unhealthy_in_same_zone,
    )

    same : file_eq f f ≡ true
    same = ground (
      arith,
      bytes_eq_refl f.reap_predicate,
      bytes_eq_refl f.unhealthy_predicate,
      bytes_eq_refl f.max_nodes_unhealthy,
      bytes_eq_refl f.max_nodes_unhealthy_in_same_zone,
    )

    from : f ≡ g → file_eq f g ≡ true
    from e = subst (λ (x : File). file_eq f x ≡ true) e same

-- How a configuration comes to be loaded: as the decoder leaves it, or as the default in place of the
-- zero value.
abbrev pub IsLoaded : Files → Bytes → File → Type 0
IsLoaded fs path f =
    (text : Bytes) × (cfg : File) × (fs.read_file path ≡ ok text)
    × (fs.unmarshal_strict text default_config ≡ ok cfg)
    × (((cfg ≢ zeroed_file) × (f ≡ cfg)) ⊎ ((cfg ≡ zeroed_file) × (f ≡ default_config)))

-- A configuration is loaded exactly when the file can be read and decoded over the defaults; it is
-- what the decoder leaves, but where that is the zero value it is the default.
pub load-ok_iff :
    (fs : Files) (path : Bytes) (f : File) → (load fs path ≡ ok f) ↔ IsLoaded fs path f
unfolding load
load-ok_iff fs path f = (to, from)
  where
    chosen :
        (cfg : File)
        → (if file_eq cfg zeroed_file then default_config else cfg) ≡ f
        → ((cfg ≢ zeroed_file) × (f ≡ cfg)) ⊎ ((cfg ≡ zeroed_file) × (f ≡ default_config))
    chosen cfg e = elim (Bool-cases (file_eq cfg zeroed_file)) [
      | inl zeroed ↦ inr ((file_eq_iff cfg zeroed_file).0 zeroed, ground arith)
      | inr other ↦ inl ((λ z. cc ((file_eq_iff cfg zeroed_file).1 z)), ground arith)
    ]

    to : load fs path ≡ ok f → IsLoaded fs path f
    to h = elim (Result-cases (fs.read_file path)) [
      | inl (text, read) ↦ elim (Result-cases (fs.unmarshal_strict text default_config)) [
        | inl (cfg, decoded) ↦ (text, cfg, read, decoded, chosen cfg (ground arith))
        | inr (e, refused) ↦ ground arith
      ]
      | inr (e, refused) ↦ ground arith
    ]

    from : IsLoaded fs path f → load fs path ≡ ok f
    from (text, cfg, read, decoded, which) =
        rw (read, decoded) (ground (arith, file_eq_iff cfg zeroed_file))
