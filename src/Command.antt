-- ===== src/Command.antt =====
-- cmd/atomfs: the commands mount, umount and verify.
pub mod Checked
pub mod Image
pub mod Main
pub mod Verify
use atomfs.Base.{
  ℕ, Bool, true, false, not, ◌&&◌, ◌||◌, Option, none, some, List, [], ◌∷◌, ◌++◌, ◌==◌,
  if◌then◌else◌, suc, length,
}
use atomfs.Text.{Bytes, bytes, text_eq, has_prefix, is_empty}
use atomfs.FilePath.{is_abs, abs, join_path}
use atomfs.System.{
  Answer, answer, failure, Result, ok, err, Exec, pure, fail, crash, lift, known, ◌>>=◌, ◌>>◌,
  attempt, act, run, usage, no_oci_dir, persist_argument, not_a_mountpoint, not_overlay,
  no_mounts_found, corrupt_molecule,
}
use atomfs.Host.{path_exists, get_mount_ns_name, runtime_dir, replace_path_separators}
use atomfs.Mountinfo.{Mount, parse_mounts}
use atomfs.Device.{is_mountpoint, umount}
use atomfs.Verity.{confirm_validity}
use atomfs.Molecule.Oci.{Engine, build_molecule_from_oci}
use atomfs.Molecule.Mounting.{mount_molecule}
use atomfs.Layer.{Setup}
use atomfs.Molecule.Unmounting.{umount_with_metadir}

-- The flags of `atomfs mount`; `persist` is `some` where the flag is set.
pub record MountFlags : Type 0 where
  pub persist : Option Bytes
  pub writeable : Bool
  pub allow_missing_verity : Bool
  pub metadir : Bytes

abbrev pub behind : ℕ → Option (Bytes × Bytes) → Option (Bytes × Bytes)
behind c none = none
behind c (some (dir, tag)) = some (c ∷ dir, tag)

-- `strings.SplitN(arg, ":", 2)`: `none` without a colon.
unfoldable pub cut_at_colon : Bytes → Option (Bytes × Bytes)
cut_at_colon [] = none
cut_at_colon (c ∷ s) =
    let rest = cut_at_colon s in if c == b':' then some ([], s) else behind c rest

abbrev pub existing_image : Option (Bytes × Bytes) → Exec (Bytes × Bytes)
existing_image none = fail usage
existing_image (some (ocidir, tag)) = do
  exists ← path_exists ocidir
  if not exists then fail no_oci_dir else pure (ocidir, tag)

-- `findImage`
unfoldable pub find_image : Bytes → Exec (Bytes × Bytes)
find_image arg = existing_image (cut_at_colon arg)

unfoldable pub persist_path : Option Bytes → Result Bytes
persist_path none = ok []
persist_path (some path) = if is_empty path then err persist_argument else ok path

abbrev pub is_set : Option Bytes → Bool
is_set none = false
is_set (some _) = true

-- `amPrivileged`
unfoldable pub am_privileged : Exec Bool
am_privileged = known (λ k. k.euid == 0)

-- The OCI library's `OpenLayout` and `Close`, and the end of the process (`os.Exit`), are arguments.
module _ {Desc Manifest Image : Type 0} (setup : Setup)
    (open_layout : Bytes → Exec (Engine Desc Manifest Image))
    (close_layout exit : Exec (Unit {0})) where
  abbrev pub mount_image : MountFlags → List Bytes → Bytes × Bytes → Exec (Unit {0})
  mount_image flags [] image = crash
  mount_image flags (target ∷ _) image = do
    abs_target ← abs target
    abs_ocidir ← abs image.0
    persist ← lift (persist_path flags.persist)
    m ← build_molecule_from_oci open_layout close_layout (record {
      oci_dir = abs_ocidir;
      tag = image.1;
      target = abs_target;
      add_writeable_overlay = flags.writeable || is_set flags.persist;
      writeable_overlay_path = persist;
      allow_missing_verity_data = flags.allow_missing_verity;
      metadata_dir = flags.metadir;
    })
    mount_molecule setup m target

  -- `doMount`: a missing second argument is a panic.
  unfoldable pub do_mount : MountFlags → List Bytes → Exec (Unit {0})
  do_mount flags [] = fail usage
  do_mount flags (arg ∷ rest) = do
    image ← find_image arg
    privileged ← am_privileged
    if not privileged then exit else mount_image flags rest image

-- `RunCommand`; without a program it panics.
unfoldable pub run_command : List Bytes → Exec (Unit {0})
run_command [] = crash
run_command (program ∷ args) = act (run program args)

-- `squashUmount`
unfoldable pub squash_umount : Bytes → Exec (Unit {0})
squash_umount p = do
  privileged ← am_privileged
  if privileged then umount p else run_command (bytes "fusermount" ∷ bytes "-u" ∷ p ∷ [])

-- `filepath.Abs` is called for a relative path only.
abbrev pub absolute : Bytes → Exec Bytes
absolute p = if is_abs p then pure p else abs p

-- `doUmount`
unfoldable pub do_umount : Bytes → List Bytes → Exec (Unit {0})
do_umount metadir [] = fail usage
do_umount metadir (mountpoint ∷ _) = do path ← absolute mountpoint; umount_with_metadir path metadir

-- A mount at the path that is no overlay.
unfoldable pub has_other : Bytes → List Mount → Bool
has_other path [] = false
has_other path (m ∷ ms) =
    let rest = has_other path ms in
    (text_eq m.target path && not (text_eq m.fs_type (bytes "overlay"))) || rest

-- The mounts that are looked at.
unfoldable pub is_checked : Bytes → Mount → Bool
is_checked mountsdir m = has_prefix m.target mountsdir && text_eq m.fs_type (bytes "squashfs")

abbrev pub is_fine : Answer (Unit {0}) → Bool
is_fine (answer _) = true
is_fine (failure _) = false

-- The loop: the number of the mounts that were checked, and whether all are fine.
unfoldable pub check_mounts : Bytes → List Mount → Exec (ℕ × Bool)
check_mounts mountsdir [] = pure (0, true)
check_mounts mountsdir (m ∷ ms) =
    if not (is_checked mountsdir m)
    then check_mounts mountsdir ms
    else (attempt (confirm_validity m.source) >>= λ done.
        check_mounts mountsdir ms >>= λ rest. pure (suc rest.0, is_fine done && rest.1))

unfoldable pub verdict : ℕ × Bool → Result (Unit {0})
verdict (n, fine) =
    if n == 0 then err no_mounts_found else if fine then ok tt else err corrupt_molecule

-- The directory of the molecule's atoms.
abbrev pub mounts_dir : Bytes → Bytes → Bytes → Bytes
mounts_dir runtimedir ns flat =
    join_path (join_path (runtimedir ∷ bytes "meta" ∷ ns ∷ flat ∷ []) ∷ bytes "mounts" ∷ [])

unfoldable pub verify_mounted : Bytes → Bytes → Exec (Unit {0})
verify_mounted metadir path = do
  ns ← get_mount_ns_name
  runtimedir ← runtime_dir metadir
  flat ← lift (replace_path_separators path)
  let mountsdir = mounts_dir runtimedir ns flat
  mounts ← parse_mounts
  if has_other path mounts
      then fail not_overlay
      else do checked ← check_mounts mountsdir mounts; lift (verdict checked)

-- `doVerify`
unfoldable pub do_verify : Bytes → List Bytes → Exec (Unit {0})
do_verify metadir (mountpoint ∷ []) = do
  path ← absolute mountpoint
  mounted ← is_mountpoint path
  if not mounted then fail not_a_mountpoint else verify_mounted metadir path
do_verify metadir _ = fail usage
