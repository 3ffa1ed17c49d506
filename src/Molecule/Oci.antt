-- ===== src/Molecule/Oci.antt =====
-- pkg/molecule/oci.go and pkg/oci/oci.go: the molecule of a tag of an OCI layout.
pub mod Reversal
pub mod Update
use atomfs.Base.{
  ℕ, zero, suc, ◌-◌, ◌/◌, Bool, true, false, not, Option, none, some, List, [], ◌∷◌, if◌then◌else◌,
  length, get_elem?, set,
}
use atomfs.Text.{Bytes, bytes, text_eq}
use atomfs.System.{
  Answer, answer, failure, Result, ok, err, Error, bad_descriptor, not_a_manifest, bad_config_type,
  and_then, Exec, lift, always, ◌>>=◌,
}
use atomfs.Molecule.{Descriptor, Molecule, MountOciOpts}

-- `atoms[i], atoms[j] = atoms[j], atoms[i]`
abbrev pub swap_elems {ℓ} : {A : Type ℓ} → ℕ → ℕ → Option A → Option A → List A → List A
swap_elems i j (some x) (some y) xs = set (set xs i y) j x
swap_elems i j _ _ xs = xs

unfoldable pub swap {ℓ} : {A : Type ℓ} → ℕ → ℕ → List A → List A
swap i j xs = swap_elems i j (get_elem? xs i) (get_elem? xs j) xs

-- The loop from `i = n - 1` down to 0.
unfoldable pub swaps {ℓ} : {A : Type ℓ} → ℕ → List A → List A
swaps zero xs = xs
swaps (suc i) xs = swaps i (swap i (length xs - 1 - i) xs)

unfoldable pub reversed {ℓ} : {A : Type ℓ} → List A → List A
reversed xs = swaps (length xs / 2) xs

-- What the OCI library reads: references resolve to descriptors, and a descriptor to a blob with a
-- media type. `Desc`, `Manifest` and `Image` are its own types.
pub record Engine (Desc Manifest Image : Type 0) : Type 0 where
  pub resolve_reference : Bytes → Answer (List Desc)
  pub media_type_of : Desc → Answer Bytes
  pub manifest_data : Desc → Manifest
  pub image_data : Desc → Image
  pub layers : Manifest → List Descriptor

abbrev pub media_type_image_manifest : Bytes
media_type_image_manifest = bytes "application/vnd.oci.image.manifest.v1+json"

abbrev pub media_type_image_config : Bytes
media_type_image_config = bytes "application/vnd.oci.image.config.v1+json"

module _ {Desc Manifest Image : Type 0} (oci : Engine Desc Manifest Image) where
  abbrev pub of_type : {A : Type 0} → Bytes → Error → A → Answer Bytes → Result A
  of_type expected wrong found (failure e) = err e
  of_type expected wrong found (answer t) = if not (text_eq t expected) then err wrong else ok found

  abbrev pub from_paths : Answer (List Desc) → Result Manifest
  from_paths (failure e) = err e
  from_paths (answer (d ∷ [])) =
      of_type media_type_image_manifest not_a_manifest (oci.manifest_data d) (oci.media_type_of d)
  from_paths (answer _) = err bad_descriptor

  -- `LookupManifest`
  unfoldable pub lookup_manifest : Bytes → Result Manifest
  lookup_manifest tag = from_paths (oci.resolve_reference tag)

  -- `LookupConfig`
  unfoldable pub lookup_config : Desc → Result Image
  lookup_config desc =
      of_type media_type_image_config bad_config_type (oci.image_data desc) (oci.media_type_of desc)

  -- `BuildMoleculeFromOCI` with an open layout.
  unfoldable pub build_molecule : MountOciOpts → Result Molecule
  build_molecule opts =
      and_then (lookup_manifest opts.tag)
        (λ man. ok (record { atoms = reversed (oci.layers man); config = opts }))

-- The OCI library opens the layout of a directory, and closes it with the function's end.
module _ {Desc Manifest Image : Type 0} (open_layout : Bytes → Exec (Engine Desc Manifest Image))
    (close_layout : Exec (Unit {0})) where
  -- `BuildMoleculeFromOCI`
  unfoldable pub build_molecule_from_oci : MountOciOpts → Exec Molecule
  build_molecule_from_oci opts = do
    oci ← open_layout opts.oci_dir
    always (lift (build_molecule oci opts)) close_layout
