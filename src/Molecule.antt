-- ===== src/Molecule.antt =====
-- pkg/molecule/molecule.go and pkg/molecule/oci.go: the molecule, which is an overlay of atoms, and
-- its paths and lock.
pub mod Atoms
pub mod Overlay
pub mod Cycle
pub mod Mounting
pub mod Unmounting
pub mod Oci
pub mod Places
pub mod Steady
use atomfs.Base.{ℕ, Bool, true, false, List, [], ◌∷◌, if◌then◌else◌}
use atomfs.Text.{Bytes, bytes, text_eq, is_empty, trim_suffix}
use atomfs.FilePath.{join_path, abs}
use atomfs.System.{
  Answer, answer, failure, Exec, pure, fail, lift, ◌>>=◌, ◌>>◌, attempt, act, ask_number, known,
  create, write_file, lock_failed,
}
use atomfs.Host.{get_mount_ns_name, runtime_dir, replace_path_separators}

-- `ispec.Descriptor`; `encoded` is the half of the digest that the library's `Encoded` gives.
pub record Descriptor : Type 0 where
  pub media_type : Bytes
  pub encoded : Bytes
  pub annotations : List (Bytes × Bytes)

pub record MountOciOpts : Type 0 where
  pub oci_dir : Bytes
  pub tag : Bytes
  pub target : Bytes
  pub add_writeable_overlay : Bool
  pub writeable_overlay_path : Bytes
  pub allow_missing_verity_data : Bool
  pub metadata_dir : Bytes

-- The first atom is the top most layer.
pub record Molecule : Type 0 where
  pub atoms : List Descriptor
  pub config : MountOciOpts

-- `a.Annotations[key]`: the empty text for a missing key.
unfoldable pub annotation_of : Bytes → List (Bytes × Bytes) → Bytes
annotation_of key [] = []
annotation_of key ((name, text) ∷ more) = if text_eq name key then text else annotation_of key more

unfoldable pub atoms_path : MountOciOpts → List Bytes → Bytes
atoms_path c parts = join_path (join_path (c.oci_dir ∷ bytes "blobs" ∷ bytes "sha256" ∷ []) ∷ parts)

-- `WriteToFile`: the encoding of seven texts and truth values does not fail.
unfoldable pub write_to_file : MountOciOpts → Bytes → Exec (Unit {0})
write_to_file c filename = act (write_file filename)

-- `MetadataPath`: the run-time directory, and the molecule's own directory below it.
unfoldable pub metadata_path : Molecule → Exec (Bytes × Bytes)
metadata_path m = do
  ns ← get_mount_ns_name
  abs_target ← abs m.config.target
  runtimedir ← runtime_dir m.config.metadata_dir
  flat ← lift (replace_path_separators abs_target)
  pure (runtimedir, join_path (runtimedir ∷ bytes "meta" ∷ ns ∷ flat ∷ []))

unfoldable pub mounted_atoms_path : Molecule → List Bytes → Exec Bytes
mounted_atoms_path m parts = do
  paths ← metadata_path m
  pure (join_path (join_path (paths.1 ∷ bytes "mounts" ∷ []) ∷ parts))

-- `os.TempDir`
abbrev pub temp_dir : Bytes → Bytes
temp_dir tmpdir = if is_empty tmpdir then bytes "/tmp" else tmpdir

abbrev pub lock_name : Bytes
lock_name = bytes ".atomfs-lock"

unfoldable pub advisory_lock_path : Exec Bytes
advisory_lock_path = known (λ k. join_path (temp_dir (k.env (bytes "TMPDIR")) ∷ lock_name ∷ []))

abbrev pub or_lock_failed : Answer ℕ → Exec ℕ
or_lock_failed (answer fd) = pure fd
or_lock_failed (failure _) = fail lock_failed

abbrev pub or_backup : Bytes → Answer ℕ → Exec ℕ
or_backup lockdir (answer fd) = pure fd
or_backup lockdir (failure _) = do
  made ←
      attempt (ask_number (create (join_path (trim_suffix lockdir (bytes "/") ∷ lock_name ∷ []))))
  or_lock_failed made

-- `makeLock`: a lock file for all of the host, or else one in the given directory.
unfoldable pub make_lock : Bytes → Exec ℕ
make_lock lockdir = do
  path ← advisory_lock_path
  made ← attempt (ask_number (create path))
  or_backup lockdir made
