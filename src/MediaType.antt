-- ===== src/MediaType.antt =====
-- pkg/squashfs/mediatype.go, pkg/erofs/mediatype.go and pkg/fs/fs.go: media types of layers, and
-- the file system that serves them.
use atomfs.Base.{Bool, ◌≡◌, refl, Option, none, some, ◌++◌, if◌then◌else◌}
use atomfs.Text.{Bytes, bytes, text_eq, has_prefix}

pub data Filesystem : Type 0 where
  squashfs erofs : Filesystem

abbrev pub squashfs_media_type : Bytes
squashfs_media_type = bytes "application/vnd.stacker.image.layer.squashfs"

abbrev pub erofs_media_type : Bytes
erofs_media_type = bytes "application/vnd.stacker.image.layer.erofs"

unfoldable pub is_squashfs_media_type : Bytes → Bool
is_squashfs_media_type t = has_prefix t squashfs_media_type

unfoldable pub is_erofs_media_type : Bytes → Bool
is_erofs_media_type t = has_prefix t erofs_media_type

unfoldable pub generate_squashfs_media_type : Bytes → Bytes
generate_squashfs_media_type comp = squashfs_media_type ++ (bytes "+" ++ comp)

unfoldable pub generate_erofs_media_type : Bytes → Bytes
generate_erofs_media_type comp = erofs_media_type ++ (bytes "+" ++ comp)

-- `fs.New`
unfoldable pub new_filesystem : Bytes → Option Filesystem
new_filesystem fs_type =
    if text_eq fs_type (bytes "squashfs")
    then some squashfs
    else if text_eq fs_type (bytes "erofs")
    then some erofs
    else none

-- `fs.NewFromMediaType`
unfoldable pub new_from_media_type : Bytes → Option Filesystem
new_from_media_type t =
    if is_squashfs_media_type t
    then some squashfs
    else if is_erofs_media_type t
    then some erofs
    else none

abbrev pub generated : Filesystem → Bytes → Bytes
generated squashfs comp = generate_squashfs_media_type comp
generated erofs comp = generate_erofs_media_type comp

-- The media type that a file system generates is recognised as its own, whatever the compression,
-- and by no other.
pub new_from_media_type-generated :
    (fs : Filesystem) (comp : Bytes) → new_from_media_type (generated fs comp) ≡ some fs
unfolding new_from_media_type is_squashfs_media_type is_erofs_media_type
    generate_squashfs_media_type generate_erofs_media_type has_prefix
new_from_media_type-generated squashfs comp = refl
new_from_media_type-generated erofs comp = refl
