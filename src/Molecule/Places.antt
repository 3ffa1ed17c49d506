-- ===== src/Molecule/Places.antt =====
-- Where the atoms of a molecule are mounted: `mountedAtomsPath` and `overlayLowerDirs` of
-- pkg/molecule/molecule.go on a kernel that tells the metadata path always the same.
use atomfs.Base.{◌≡◌, refl, ap, List, [], ◌∷◌}
use atomfs.Text.{Bytes, bytes, join}
use atomfs.FilePath.{join_path}
use atomfs.System.{History, Kernel}
use atomfs.System.Trace.{Ends, Ends-pure, Ends-bind, Ends-after}
use atomfs.Molecule.{Descriptor, Molecule, metadata_path, mounted_atoms_path}
use atomfs.Molecule.Overlay.{targets_of, with_workaround, overlay_lower_dirs}

-- A name below the directory of the molecule's mounts.
abbrev pub place : Bytes → Bytes → Bytes
place metadir name = join_path (join_path (metadir ∷ bytes "mounts" ∷ []) ∷ name ∷ [])

abbrev pub places : Bytes → List Descriptor → List Bytes
places metadir [] = []
places metadir (a ∷ rest) = place metadir a.encoded ∷ places metadir rest

-- The lower directories of the overlay: one for each atom, and an empty one beside a single atom.
abbrev pub layer_dirs : Bytes → List Descriptor → List Bytes
layer_dirs metadir (a ∷ []) = place metadir a.encoded ∷ place metadir (bytes "workaround") ∷ []
layer_dirs metadir atoms = places metadir atoms

-- The molecule's metadata path, wherever it is found, is this one.
abbrev pub IsSteady : Kernel → Molecule → Bytes → Type 0
IsSteady k m metadir = (h : History) → Ends (metadata_path m) k h (λ paths _. paths.1 ≡ metadir)

module _ (k : Kernel) (m : Molecule) (metadir : Bytes) (steady : IsSteady k m metadir) where
  pub mounted_atoms_path-place :
      (name : Bytes) (h : History)
      → Ends (mounted_atoms_path m (name ∷ [])) k h (λ p _. p ≡ place metadir name)
  unfolding mounted_atoms_path
  mounted_atoms_path-place name h =
      Ends-bind (λ ps _. ps.1 ≡ metadir) _ _ (steady h)
        λ ps h₁ e. Ends-pure _ (ap (λ d. place d name) e)

  targets_of-places :
      (atoms : List Descriptor) (h : History)
      → Ends (targets_of m atoms) k h (λ ts _. ts ≡ places metadir atoms)
  unfolding targets_of
  targets_of-places [] h = Ends-pure [] refl
  targets_of-places (a ∷ rest) h =
      Ends-bind (λ p _. p ≡ place metadir a.encoded) _ _ (mounted_atoms_path-place a.encoded h)
        λ p h₁ e.
          Ends-bind (λ ts _. ts ≡ places metadir rest) _ _ (targets_of-places rest h₁)
            λ ts h₂ f. Ends-pure _ (rw (e, f) refl)

  with_workaround-layer_dirs :
      (atoms : List Descriptor) (h : History)
      → Ends (with_workaround m (places metadir atoms)) k h (λ ts _. ts ≡ layer_dirs metadir atoms)
  unfolding with_workaround
  with_workaround-layer_dirs [] h = Ends-pure _ refl
  with_workaround-layer_dirs (a ∷ []) h =
      Ends-bind (λ p _. p ≡ place metadir (bytes "workaround")) _ _
        (mounted_atoms_path-place (bytes "workaround") h)
        λ p h₁ e. Ends-after _ _ λ u h₂. Ends-pure _ (rw e refl)
  with_workaround-layer_dirs (a ∷ b ∷ rest) h = Ends-pure _ refl

  pub overlay_lower_dirs-layer_dirs :
      (h : History)
      → Ends
          (overlay_lower_dirs m)
          k
          h
          (λ lower _. lower ≡ join (bytes ":") (layer_dirs metadir m.atoms))
  unfolding overlay_lower_dirs
  overlay_lower_dirs-layer_dirs h =
      Ends-bind (λ ts _. ts ≡ places metadir m.atoms) _ _ (targets_of-places m.atoms h)
        λ ts h₁ e.
          Ends-bind (λ ds _. ds ≡ layer_dirs metadir m.atoms) _ _
            (rw e (with_workaround-layer_dirs m.atoms h₁))
            λ ds h₂ f. Ends-pure _ (ap (join (bytes ":")) f)
