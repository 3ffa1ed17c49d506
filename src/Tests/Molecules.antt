-- ===== src/Tests/Molecules.antt =====
-- Mounting and unmounting molecules on the machine.
use atomfs.Base.{ℕ, ◌≡◌, ◌≢◌, refl, List, [], ◌∷◌, ◌++◌, reverse, ap}
use atomfs.Text.{text_eq, split_by, split, join, replace_all, Bytes, bytes}
use atomfs.FilePath.{is_abs, clean, resolve, join_path, abs}
use atomfs.System.{
  unmount, ok, err, answer, History, and_then, pure, fail, lift, ◌>>=◌, ◌>>◌, attempt, act,
  ask_text, known, no_root_hash, readlink, flock, mkdir_all,
}
use atomfs.System.Trace.{Ends, Ends-mono, Ends-value}
use atomfs.Host.{get_mount_ns_name, namespace_number, runtime_dir, replace_path_separators}
use atomfs.Molecule.{Molecule, Descriptor, metadata_path, annotation_of, mounted_atoms_path}
use atomfs.Molecule.Atoms.{
  mount_atoms, mount_atom, require_verity, root_hash_of, mount_underlying_atoms,
}
use atomfs.Molecule.Atoms.Verified.{AllVerified, mount_underlying_atoms-AllVerified}
use atomfs.Molecule.Overlay.{overlay_lower_dirs, targets_of, with_workaround}
use atomfs.Molecule.Mounting.{mount_all, mount_top, returned}
use atomfs.Molecule.Mounting.Outcome.{mount_all_without_cleanup}
use atomfs.Molecule.Unmounting.{unmount_all}
use atomfs.Molecule.Unmounting.Order.{changes, kept, then_unmounted, unmount_all-unmounted}
use atomfs.Molecule.Oci.{Engine, lookup_manifest, build_molecule, media_type_image_manifest}
use atomfs.Molecule.Places.{IsSteady}
use atomfs.Molecule.Oci.Reversal.{build_molecule-reverse}
use atomfs.Tests.Data.{machine, setup, molecule, opts, atom}
use atomfs.Tests.Volumes.{host_root_always}

metadata_path-machine : metadata_path molecule machine [] ≡ (
  ok (bytes "/run/atomfs", bytes "/run/atomfs/meta/4026531840/mnt"),
  readlink (bytes "/proc/self/ns/mnt") ∷ [],
)
unfolding metadata_path get_mount_ns_name namespace_number runtime_dir replace_path_separators abs
    join_path clean resolve is_abs join split split_by replace_all text_eq ◌>>=◌ ask_text lift known
    pure
metadata_path-machine = refl

machine-IsSteady : IsSteady machine molecule (bytes "/run/atomfs/meta/4026531840/mnt")
unfolding metadata_path get_mount_ns_name namespace_number runtime_dir replace_path_separators abs
    join_path clean resolve is_abs join split split_by replace_all text_eq ◌>>=◌ ask_text lift known
    pure
machine-IsSteady h =
    Ends-mono _
      (Ends-value (metadata_path molecule) machine h
        (bytes "/run/atomfs", bytes "/run/atomfs/meta/4026531840/mnt") refl)
      λ paths h' e. ap (λ (p : Bytes × Bytes). p.1) e

mount_underlying_atoms-AllVerified_example :
    Ends (mount_underlying_atoms setup molecule) machine [] (λ r h.
      r.0 ≡ answer tt
      → AllVerified setup molecule machine
          (bytes "/run/atomfs/meta/4026531840/mnt")
          molecule.atoms
          []
          h)
mount_underlying_atoms-AllVerified_example =
    mount_underlying_atoms-AllVerified setup molecule machine _ machine-IsSteady host_root_always
      refl []

mount_all_without_cleanup_example :
    mount_all setup molecule (bytes "/run/m") (bytes "/mnt") (bytes "/a:/b") machine []
    ≡ (mount_underlying_atoms setup molecule >>= λ atoms.
          returned atoms.0 >> mount_top molecule (bytes "/run/m") (bytes "/mnt") (bytes "/a:/b"))
        machine []
mount_all_without_cleanup_example =
    mount_all_without_cleanup setup molecule (bytes "/run/m") (bytes "/mnt") (bytes "/a:/b") machine
      []

unmount_all-unmounted_example :
    Ends (unmount_all (bytes "/mnt") (bytes "/mnt" ∷ bytes "/a" ∷ [])) machine [] (λ _ h.
      (((bytes "/mnt") ∷ bytes "/a" ∷ []) ≢ [])
      × (changes machine h
          ≡ then_unmounted
              (unmount (bytes "/mnt") ∷ [])
              (kept (bytes "/mnt") (bytes "/mnt" ∷ bytes "/a" ∷ []))))
unmount_all-unmounted_example =
    unmount_all-unmounted (bytes "/mnt") (bytes "/mnt" ∷ bytes "/a" ∷ []) machine []

-- A layout with one manifest of three layers.
abbrev pub layout : Engine ℕ (List Descriptor) ℕ
layout = record {
  resolve_reference = λ _. answer (0 ∷ []);
  media_type_of = λ _. answer media_type_image_manifest;
  manifest_data = λ _.
      atom ∷ record atom { encoded = bytes "beef" } ∷ record atom { encoded = bytes "cafe" } ∷ [];
  image_data = λ _. 0;
  layers = λ m. m;
}

build_molecule-reverse_example :
    build_molecule layout opts
    ≡ and_then
        (lookup_manifest layout opts.tag)
        (λ man. ok (record { atoms = reverse man; config = opts }))
build_molecule-reverse_example = build_molecule-reverse layout opts

-- An atom without a root hash.
abbrev bare : Molecule
bare = record { atoms = record atom { annotations = [] } ∷ []; config = opts }

abbrev atoms_dir : Bytes
atoms_dir = bytes "/run/atomfs/meta/4026531840/mnt/mounts"

abbrev bare_lower : Bytes
bare_lower = (atoms_dir ++ bytes "/f00d:") ++ (atoms_dir ++ bytes "/workaround")

abbrev after_lower : History
after_lower =
    mkdir_all (atoms_dir ++ bytes "/workaround")
    ∷ readlink (bytes "/proc/self/ns/mnt")
    ∷ readlink (bytes "/proc/self/ns/mnt")
    ∷ flock 3
    ∷ []

bare_lower_dirs : overlay_lower_dirs bare machine (flock 3 ∷ []) ≡ (ok bare_lower, after_lower)
unfolding overlay_lower_dirs targets_of with_workaround mounted_atoms_path act metadata_path
    get_mount_ns_name namespace_number runtime_dir replace_path_separators abs join_path clean
    resolve is_abs join split split_by replace_all text_eq ◌>>=◌ ask_text lift known pure
bare_lower_dirs = refl

bare_fails :
    mount_all setup bare (bytes "/run/m") (bytes "/mnt") bare_lower machine after_lower
    ≡ (err no_root_hash, readlink (bytes "/proc/self/ns/mnt") ∷ after_lower)
unfolding mount_all mount_underlying_atoms mount_atoms mount_atom require_verity root_hash_of
    annotation_of attempt returned fail mounted_atoms_path metadata_path get_mount_ns_name
    namespace_number runtime_dir replace_path_separators abs join_path clean resolve is_abs join
    split split_by replace_all text_eq ◌>>=◌ ask_text lift known pure
bare_fails = refl
