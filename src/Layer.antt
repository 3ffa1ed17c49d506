-- ===== src/Layer.antt =====
-- pkg/squashfs/fs.go, pkg/erofs/fs.go and pkg/types/fs.go: mounting the image of one layer.
-- The two implementations of the interface differ in the superblock that they read, the type that they
-- give to the kernel, and the program that serves the image in user space.
pub mod Guest
pub mod Interface
pub mod Mounts
use atomfs.Base.{ℕ, Bool, true, false, not, ◌||◌, if◌then◌else◌}
use atomfs.Text.{Bytes, bytes, is_empty}
use atomfs.System.{Answer, answer, failure, Exec, pure, fail, ◌>>=◌, attempt, ask_info, stat}
use atomfs.MediaType.{Filesystem, squashfs, erofs}
use atomfs.Host.{am_host_root}
use atomfs.Fuse.{FuseInfo, squash_fuse, erofs_fuse}
use atomfs.Device.{FuseCmd, guest_mount, umount}
use atomfs.Verity.{verity_host_mount}
use atomfs.Squashfs.Superblock as SquashSuper
use atomfs.Erofs.Superblock as ErofsSuper

abbrev pub type_name : Filesystem → Bytes
type_name squashfs = bytes "squashfs"
type_name erofs = bytes "erofs"

-- What the `sync.Once` of each package has found of its program (`exPolInfo` is another one), and the
-- number that the conversion of `math.Log2(0)` to an integer gives, which the hardware decides.
pub record Setup : Type 0 where
  pub minus_infinity : ℕ
  pub squash_info : FuseInfo
  pub erofs_info : FuseInfo

module _ (setup : Setup) where
  -- The start of the program that serves the image.
  abbrev pub fuse_of : Filesystem → FuseCmd
  fuse_of squashfs img mountpoint = squash_fuse setup.squash_info img mountpoint
  fuse_of erofs img mountpoint = erofs_fuse setup.erofs_info img mountpoint

  abbrev pub data_location : Filesystem → Bytes → Exec ℕ
  data_location squashfs img = do
    sb ← SquashSuper.read_superblock setup.minus_infinity img
    pure (SquashSuper.verity_data_location sb)
  data_location erofs img = do
    sb ← ErofsSuper.read_superblock img
    pure (ErofsSuper.verity_data_location sb)

  -- `fsImgVerityLocation`: the size of the image and the end of its data.
  unfoldable pub img_verity_location : Filesystem → Bytes → Exec (ℕ × ℕ)
  img_verity_location fs img = do
    fi ← ask_info (stat img)
    offset ← data_location fs img
    pure (fi.size, offset)

  -- `hostMount`
  unfoldable pub host_mount : Filesystem → Bytes → Bytes → Bytes → Exec (Unit {0})
  host_mount fs img mountpoint root_hash = do
    location ← img_verity_location fs img
    verity_host_mount img (type_name fs) mountpoint root_hash location.0 location.1

  abbrev pub or_guest : Filesystem → Bytes → Bytes → Bytes → Answer (Unit {0}) → Exec (Unit {0})
  or_guest fs img mountpoint root_hash (answer _) = pure tt
  or_guest fs img mountpoint root_hash (failure e) =
      if not (is_empty root_hash) then fail e else guest_mount img mountpoint (fuse_of fs)

  -- `Filesystem.Mount`: the kernel mounts the image for the root of the host, and user space does for
  -- others, and where the kernel has failed and there is no root hash.
  unfoldable pub mount_layer : Filesystem → Bytes → Bytes → Bytes → Exec (Unit {0})
  mount_layer fs img mountpoint root_hash = do
    host ← am_host_root
    if not host then guest_mount img mountpoint (fuse_of fs) else do
      mounted ← attempt (host_mount fs img mountpoint root_hash)
      or_guest fs img mountpoint root_hash mounted
