-- ===== src/Device.antt =====
-- pkg/common/mount.go: mounting an image in user space, unmounting, and the devices behind a mount.
use atomfs.Base.{Bool, true, false, not, Option, none, some, List, [], ◌∷◌, if◌then◌else◌}
use atomfs.Text.{Bytes, text_eq, has_suffix}
use atomfs.FilePath.{abs}
use atomfs.Mountinfo.{Mount, find_mount, parse_mounts}
use atomfs.Mountinfo as Mountinfo
use atomfs.Verity.{verity_suffix, verity_unmount}
use atomfs.System.{
  already_mounted, not_a_mountpoint, Answer, answer, failure, FileInfo, Exec, pure, fail, crash,
  ◌>>=◌, ◌>>◌, attempt, act, ask_info, stat, unmount, release, is_not_exist,
}

abbrev pub FuseCmd : Type 0
FuseCmd = Bytes → Bytes → Exec (Unit {0})

abbrev pub mounted_and_known : Answer Bool → Bool
mounted_and_known (answer mounted) = mounted
mounted_and_known (failure _) = false

-- `IsMountpoint`
unfoldable pub is_mountpoint : Bytes → Exec Bool
is_mountpoint dest = do
  mounted ← attempt (Mountinfo.is_mountpoint dest)
  pure (mounted_and_known mounted)

-- `GuestMount`
unfoldable pub guest_mount : Bytes → Bytes → FuseCmd → Exec (Unit {0})
guest_mount img mountpoint fuse_cmd = do
  mounted ← is_mountpoint mountpoint
  if mounted
      then fail already_mounted
      else do img' ← abs img; mountpoint' ← abs mountpoint; fuse_cmd img' mountpoint'; act release

abbrev pub source_of : Option Mount → Exec Bytes
source_of none = fail not_a_mountpoint
source_of (some m) = pure m.source

-- `GetBackingDevice`
unfoldable pub get_backing_device : Bytes → Exec Bytes
get_backing_device mountpoint = do mounts ← parse_mounts; source_of (find_mount mounts mountpoint)

abbrev pub clean_up_found : Bytes → Answer FileInfo → Exec (Unit {0})
clean_up_found dev (failure e) = if is_not_exist e then pure tt else fail e
clean_up_found dev (answer _) = if has_suffix dev verity_suffix then verity_unmount dev else pure tt

-- `MaybeCleanupBackingDevice`
unfoldable pub maybe_cleanup_backing_device : Bytes → Exec (Unit {0})
maybe_cleanup_backing_device dev = do
  found ← attempt (ask_info (stat dev))
  clean_up_found dev found

abbrev pub or_empty : Answer Bytes → Bytes
or_empty (answer dev) = dev
or_empty (failure _) = []

-- `Umount`: the error of `GetBackingDevice` is overwritten, and its device is then the empty text.
unfoldable pub umount : Bytes → Exec (Unit {0})
umount mountpoint = do
  dev ← attempt (get_backing_device mountpoint)
  act (unmount mountpoint)
  maybe_cleanup_backing_device (or_empty dev)

-- Is some mount at the directory?
unfoldable pub is_target : Bytes → List Mount → Bool
is_target dest [] = false
is_target dest (m ∷ ms) = if text_eq m.target dest then true else is_target dest ms

abbrev pub mounted_at : Bytes → Answer FileInfo → Exec Bool
mounted_at dest (failure e) = if is_not_exist e then pure false else crash
mounted_at dest (answer fi) =
    if not fi.is_dir
    then pure false
    else do mounts ← parse_mounts; fdest ← abs dest; pure (is_target fdest mounts)

-- `IsMountedAtDir`: after an error of `os.Stat` other than "does not exist" the code calls a method
-- of the nil `FileInfo`.
unfoldable pub is_mounted_at_dir : Bytes → Exec Bool
is_mounted_at_dir dest = do found ← attempt (ask_info (stat dest)); mounted_at dest found
