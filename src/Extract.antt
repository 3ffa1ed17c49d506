-- ===== src/Extract.antt =====
-- The extractors of pkg/squashfs/squashfs.go and pkg/erofs/erofs.go. Each file has three, which
-- differ in the names of programs and their arguments. The mutexes of the extractors order the
-- calls of several goroutines; a run of one goroutine does not see them.
pub mod Policy
pub mod Race
use atomfs.Base.{ℕ, Bool, true, false, not, Option, none, some, List, [], ◌∷◌, if◌then◌else◌}
use atomfs.Text.{Bytes, bytes, text_eq, is_empty}
use atomfs.System.{
  Error, Answer, answer, failure, Exec, pure, fail, ◌>>=◌, ◌>>◌, attempt, act, act_ignoring, run,
  remove_all, release, unavailable, kmount_failed, empty_image,
}
use atomfs.MediaType.{Filesystem, squashfs, erofs}
use atomfs.Host.{which, am_host_root, is_empty_dir}
use atomfs.Device.{FuseCmd, is_mounted_at_dir}
use atomfs.Fuse.{FuseInfo, squash_fuse, erofs_fuse}

pub data Extractor : Type 0 where
  kernel fuse unpack : Extractor

-- `Name` of each.
abbrev pub kernel_name : Bytes
kernel_name = bytes "kmount"

abbrev pub squash_fuse_name : Bytes
squash_fuse_name = bytes "squashfuse"

abbrev pub unsquashfs_name : Bytes
unsquashfs_name = bytes "unsquashfs"

abbrev pub erofs_fuse_name : Bytes
erofs_fuse_name = bytes "erofsfuse"

abbrev pub fsck_erofs_name : Bytes
fsck_erofs_name = bytes "fsck.erofs"

unfoldable pub squash_name : Extractor → Bytes
squash_name kernel = kernel_name
squash_name fuse = squash_fuse_name
squash_name unpack = unsquashfs_name

unfoldable pub erofs_name : Extractor → Bytes
erofs_name kernel = kernel_name
erofs_name fuse = erofs_fuse_name
erofs_name unpack = fsck_erofs_name

-- A program in PATH.
abbrev pub in_path : Bytes → Exec (Unit {0})
in_path name = do path ← which name; if is_empty path then fail unavailable else pure tt

-- `KernelExtractor.IsAvailable`
unfoldable pub kernel_is_available : Exec (Unit {0})
kernel_is_available = do host ← am_host_root; if not host then fail unavailable else pure tt

-- `IsAvailable` of the others; the fuse program is looked for behind `once.Do`.
abbrev pub squash_fuse_is_available : FuseInfo → Exec (Unit {0})
squash_fuse_is_available info = if is_empty info.path then fail unavailable else pure tt

abbrev pub erofs_fuse_is_available : FuseInfo → Exec (Unit {0})
erofs_fuse_is_available info = if is_empty info.path then fail unavailable else pure tt

abbrev pub unsquashfs_is_available : Exec (Unit {0})
unsquashfs_is_available = in_path (bytes "unsquashfs")

abbrev pub fsck_erofs_is_available : Exec (Unit {0})
fsck_erofs_is_available = in_path (bytes "fsck.erofs")

unfoldable pub squash_is_available : FuseInfo → Extractor → Exec (Unit {0})
squash_is_available info kernel = kernel_is_available
squash_is_available info fuse = squash_fuse_is_available info
squash_is_available info unpack = unsquashfs_is_available

unfoldable pub erofs_is_available : FuseInfo → Extractor → Exec (Unit {0})
erofs_is_available info kernel = kernel_is_available
erofs_is_available info fuse = erofs_fuse_is_available info
erofs_is_available info unpack = fsck_erofs_is_available

-- The error of the program `mount` is one of three, which differ in their text.
abbrev pub kmount_error : Answer (Unit {0}) → Exec (Unit {0})
kmount_error (answer _) = pure tt
kmount_error (failure _) = fail kmount_failed

-- `KernelExtractor.Mount`
unfoldable pub kernel_mount : Bytes → Bytes → Bytes → Exec (Unit {0})
kernel_mount type_flag img extract_dir = do
  mounted ← is_mounted_at_dir extract_dir
  if mounted then pure tt else do
    done ←
        attempt (act (run (bytes "mount") (type_flag ∷ bytes "-oloop,ro" ∷ img ∷ extract_dir ∷ [])))
    kmount_error done

-- `SquashFuseExtractor.Mount`, `ErofsFuseExtractor.Mount`
unfoldable pub fuse_mount : FuseCmd → Bytes → Bytes → Exec (Unit {0})
fuse_mount fuse_cmd img extract_dir = do
  mounted ← is_mounted_at_dir extract_dir
  if mounted then pure tt else do fuse_cmd img extract_dir; act release

-- An extraction must create files, and a failed one removes the directory.
abbrev pub unpacked : Bytes → Answer (Unit {0}) → Exec (Unit {0})
unpacked extract_dir (failure e) = do act_ignoring (remove_all extract_dir); fail e
unpacked extract_dir (answer _) = do
  empty ← is_empty_dir extract_dir
  if empty then fail empty_image else pure tt

-- `UnsquashfsExtractor.Mount`, `FsckErofsExtractor.Mount`
unfoldable pub unpack_mount : Bytes → List Bytes → Bytes → Exec (Unit {0})
unpack_mount program args extract_dir = do
  empty ← is_empty_dir extract_dir
  if not empty
      then pure tt
      else do done ← attempt (act (run program args)); unpacked extract_dir done

-- `Mount` of each.
abbrev pub squash_kernel_mount : Bytes → Bytes → Exec (Unit {0})
squash_kernel_mount img extract_dir = kernel_mount (bytes "-tsquashfs") img extract_dir

abbrev pub squash_fuse_mount : FuseInfo → Bytes → Bytes → Exec (Unit {0})
squash_fuse_mount info img extract_dir = fuse_mount (squash_fuse info) img extract_dir

abbrev pub unsquashfs_mount : Bytes → Bytes → Exec (Unit {0})
unsquashfs_mount img extract_dir =
    unpack_mount (bytes "unsquashfs") (bytes "-f" ∷ bytes "-d" ∷ extract_dir ∷ img ∷ []) extract_dir

unfoldable pub squash_mount : FuseInfo → Extractor → Bytes → Bytes → Exec (Unit {0})
squash_mount info kernel img extract_dir = squash_kernel_mount img extract_dir
squash_mount info fuse img extract_dir = squash_fuse_mount info img extract_dir
squash_mount info unpack img extract_dir = unsquashfs_mount img extract_dir

abbrev pub erofs_kernel_mount : Bytes → Bytes → Exec (Unit {0})
erofs_kernel_mount img extract_dir = kernel_mount (bytes "-terofs") img extract_dir

abbrev pub erofs_fuse_mount : FuseInfo → Bytes → Bytes → Exec (Unit {0})
erofs_fuse_mount info img extract_dir = fuse_mount (erofs_fuse info) img extract_dir

abbrev pub fsck_erofs_mount : Bytes → Bytes → Exec (Unit {0})
fsck_erofs_mount img extract_dir =
    unpack_mount (bytes "fsck.erofs") (bytes "-d" ∷ bytes "--extract" ∷ extract_dir ∷ img ∷ [])
      extract_dir

unfoldable pub erofs_mount : FuseInfo → Extractor → Bytes → Bytes → Exec (Unit {0})
erofs_mount info kernel img extract_dir = erofs_kernel_mount img extract_dir
erofs_mount info fuse img extract_dir = erofs_fuse_mount info img extract_dir
erofs_mount info unpack img extract_dir = fsck_erofs_mount img extract_dir

-- What a policy needs of the extractors of one file system.
pub record Extractors : Type 0 where
  pub name : Extractor → Bytes
  pub is_available : Extractor → Exec (Unit {0})
  pub mount : Extractor → Bytes → Bytes → Exec (Unit {0})

abbrev pub squash_extractors : FuseInfo → Extractors
squash_extractors info = record {
  name = squash_name;
  is_available = squash_is_available info;
  mount = squash_mount info;
}

abbrev pub erofs_extractors : FuseInfo → Extractors
erofs_extractors info = record {
  name = erofs_name;
  is_available = erofs_is_available info;
  mount = erofs_mount info;
}
