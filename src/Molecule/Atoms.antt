-- ===== src/Molecule/Atoms.antt =====
-- `mountUnderlyingAtoms` of pkg/molecule/molecule.go.
pub mod Confirmed
pub mod Verified
use atomfs.Base.{
  ℕ, Bool, true, false, not, ◌&&◌, Option, none, some, List, [], ◌∷◌, ◌++◌, if◌then◌else◌,
}
use atomfs.Text.{Bytes, is_empty}
use atomfs.System.{
  Answer, answer, failure, Exec, pure, fail, ◌>>=◌, ◌>>◌, attempt, act, mkdir_all, no_root_hash,
  guest_verity, unknown_media_type,
}
use atomfs.MediaType.{Filesystem, new_from_media_type}
use atomfs.Mountinfo.{Mount, parse_mounts, find_mount}
use atomfs.Host.{am_host_root}
use atomfs.Device.{umount}
use atomfs.Verity.{annotation, annotation_previous, confirm_hash, confirm_validity}
use atomfs.Layer.{Setup, mount_layer}
use atomfs.Molecule.{Descriptor, Molecule, annotation_of, atoms_path, mounted_atoms_path}

-- The root hash of an atom, under the new name or the previous one.
unfoldable pub root_hash_of : Descriptor → Bytes
root_hash_of a =
    let new = annotation_of annotation a.annotations in
    if is_empty new then annotation_of annotation_previous a.annotations else new

-- The test under `!AllowMissingVerityData`.
unfoldable pub require_verity : Bool → Bytes → Exec (Unit {0})
require_verity allow root_hash =
    if allow
    then pure tt
    else if is_empty root_hash
    then fail no_root_hash
    else do host ← am_host_root; if not host then fail guest_verity else pure tt

-- An atom that is mounted already.
unfoldable pub confirm_mounted : Bool → Bytes → Bytes → Exec (Unit {0})
confirm_mounted allow source root_hash =
    if is_empty root_hash
    then pure tt
    else do confirm_hash source root_hash allow; confirm_validity source

module _ (setup : Setup) where
  abbrev pub mount_with : Option Filesystem → Bytes → Bytes → Bytes → Exec (Unit {0})
  mount_with none img target root_hash = fail unknown_media_type
  mount_with (some fs) img target root_hash = mount_layer setup fs img target root_hash

  abbrev pub mount_unless : Molecule → Descriptor → Bytes → Option Mount → Exec (Option Bytes)
  mount_unless m a target (some found) = do
    confirm_mounted m.config.allow_missing_verity_data found.source (root_hash_of a)
    pure none
  mount_unless m a target none = do
    act (mkdir_all target)
    mount_with (new_from_media_type a.media_type) (atoms_path m.config (a.encoded ∷ [])) target
        (root_hash_of a)
    pure (some target)

  -- One pass of the loop: the target, if it is new among the mounts.
  unfoldable pub mount_atom : Molecule → Descriptor → Exec (Option Bytes)
  mount_atom m a = do
    target ← mounted_atoms_path m (a.encoded ∷ [])
    require_verity m.config.allow_missing_verity_data (root_hash_of a)
    mounts ← parse_mounts
    mount_unless m a target (find_mount mounts target)

  abbrev pub go_on :
      List Bytes
      → (List Bytes → Exec (Answer (Unit {0}) × List Bytes))
      → Answer (Option Bytes)
      → Exec (Answer (Unit {0}) × List Bytes)
  go_on mounted again (failure e) = pure (failure e, mounted)
  go_on mounted again (answer none) = again mounted
  go_on mounted again (answer (some target)) = again (mounted ++ (target ∷ []))

  -- The loop: its error, and the targets that its `cleanupAtoms` unmounts, which are the atoms
  -- mounted so far after an error, and none (`noop`) at the end.
  unfoldable pub mount_atoms :
      Molecule → List Bytes → List Descriptor → Exec (Answer (Unit {0}) × List Bytes)
  mount_atoms m mounted [] = pure (answer tt, [])
  mount_atoms m mounted (a ∷ rest) = do
    done ← attempt (mount_atom m a)
    go_on mounted (λ more. mount_atoms m more rest) done

  -- `mountUnderlyingAtoms`
  unfoldable pub mount_underlying_atoms : Molecule → Exec (Answer (Unit {0}) × List Bytes)
  mount_underlying_atoms m = mount_atoms m [] m.atoms

-- `cleanupAtoms`: an error is written to the log.
unfoldable pub cleanup_atoms : List Bytes → Exec (Unit {0})
cleanup_atoms [] = pure tt
cleanup_atoms (target ∷ targets) = do ignored ← attempt (umount target); cleanup_atoms targets
