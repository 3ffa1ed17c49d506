-- ===== src/Molecule/Unmounting.antt =====
-- `UmountWithMetadir` of pkg/molecule/molecule.go.
pub mod Order
pub mod Steps
pub mod Whole
use atomfs.Base.{ℕ, Bool, true, false, not, ◌||◌, List, [], ◌∷◌, if◌then◌else◌}
use atomfs.Text.{Bytes, bytes, text_eq}
use atomfs.FilePath.{join_path, abs, base}
use atomfs.System.{
  Result, ok, err, Exec, pure, fail, lift, ◌>>=◌, ◌>>◌, act, act_ignoring, always, unmount,
  remove_all, flock, close, not_atomfs,
}
use atomfs.Mountinfo.{Mount, parse_mounts, get_overlay_dirs}
use atomfs.Host.{get_mount_ns_name, runtime_dir, replace_path_separators}
use atomfs.Device.{get_backing_device, maybe_cleanup_backing_device}
use atomfs.Molecule.{Molecule, MountOciOpts, metadata_path, make_lock}

-- The lower directories of the first overlay that is mounted at `dest`.
unfoldable pub find_underlying : Bytes → List Mount → Result (List Bytes)
find_underlying dest [] = ok []
find_underlying dest (m ∷ ms) =
    let rest = find_underlying dest ms in
    if not (text_eq m.fs_type (bytes "overlay"))
    then rest
    else if not (text_eq m.target dest)
    then rest
    else get_overlay_dirs m

unfoldable pub abs_all : List Bytes → Exec (List Bytes)
abs_all [] = pure []
abs_all (p ∷ ps) = do a ← abs p; more ← abs_all ps; pure (a ∷ more)

-- `backingDevIsUsed`
unfoldable pub is_used : Bytes → List Mount → Bool
is_used dev [] = false
is_used dev (m ∷ ms) = text_eq m.source dev || is_used dev ms

-- The workaround directory is no mount, and the target itself is unmounted already.
unfoldable pub is_skipped : Bytes → Bytes → Bool
is_skipped dest a = text_eq (base a) (bytes "workaround") || text_eq a dest

unfoldable pub unmount_atom : Bytes → Exec (Unit {0})
unmount_atom a = do
  dev ← get_backing_device a
  act (unmount a)
  mounts ← parse_mounts
  if is_used dev mounts then pure tt else maybe_cleanup_backing_device dev

unfoldable pub unmount_atoms : Bytes → List Bytes → Exec (Unit {0})
unmount_atoms dest [] = pure tt
unmount_atoms dest (a ∷ rest) =
    if is_skipped dest a then unmount_atoms dest rest else unmount_atom a >> unmount_atoms dest rest

-- The molecule as far as its paths need it.
abbrev pub recreated : Bytes → Bytes → Molecule
recreated dest metadir_arg = record {
  atoms = [];
  config = record {
    oci_dir = [];
    tag = [];
    target = dest;
    add_writeable_overlay = false;
    writeable_overlay_path = [];
    allow_missing_verity_data = false;
    metadata_dir = metadir_arg;
  };
}

-- `os.RemoveAll(destMetaDir)`
unfoldable pub remove_metadata : Bytes → Bytes → Exec (Unit {0})
remove_metadata dest runtimedir = do
  ns ← get_mount_ns_name
  again ← runtime_dir runtimedir
  flat ← lift (replace_path_separators dest)
  act (remove_all (join_path (again ∷ bytes "meta" ∷ ns ∷ flat ∷ [])))

-- The target, then the atoms below it.
unfoldable pub unmount_all : Bytes → List Bytes → Exec (Unit {0})
unmount_all dest [] = fail not_atomfs
unmount_all dest (a ∷ rest) = do act (unmount dest); unmount_atoms dest (a ∷ rest)

unfoldable pub umount_locked : Bytes → Bytes → ℕ → Exec (Unit {0})
umount_locked dest runtimedir fd = do
  act (flock fd)
  mounts ← parse_mounts
  paths ← lift (find_underlying dest mounts)
  underlying ← abs_all paths
  unmount_all dest underlying
  remove_metadata dest runtimedir

-- `UmountWithMetadir`
unfoldable pub umount_with_metadir : Bytes → Bytes → Exec (Unit {0})
umount_with_metadir dest_arg metadir_arg = do
  dest ← abs dest_arg
  paths ← metadata_path (recreated dest metadir_arg)
  fd ← make_lock paths.1
  always (umount_locked dest paths.0 fd) (act_ignoring (close fd))

-- `Umount`
unfoldable pub umount_default : Bytes → Exec (Unit {0})
umount_default dest = umount_with_metadir dest []
