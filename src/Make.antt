-- ===== src/Make.antt =====
-- MakeSquashfs and MakeErofs of pkg/squashfs/squashfs.go and pkg/erofs/erofs.go: making an image.
-- The two functions differ in the program, the names and the order of its arguments, and the
-- compression.
pub mod Temporary
pub mod Outcome
use atomfs.Base.{ℕ, Bool, true, false, ◌||◌, Option, none, some, List, [], ◌∷◌, ◌++◌, if◌then◌else◌}
use atomfs.Text.{Bytes, bytes, is_empty, contains}
use atomfs.System.{
  Answer, answer, failure, Exec, pure, fail, ◌>>=◌, ◌>>◌, attempt, always, act, act_ignoring,
  ask_text, ask_names, ask_number, create_temp, write_text, close_temp, remove, run, outputs,
  open_file,
}
use atomfs.Exclude.{ExcludePaths, print}
use atomfs.MediaType.{Filesystem, squashfs, erofs, generated}
use atomfs.Verity.{append_verity_data}

abbrev pub any_contains : Bytes → List Bytes → Bool
any_contains word [] = false
any_contains word (text ∷ texts) = contains text word || any_contains word texts

-- An error of the program is dropped, and leaves the buffers empty where it did not run.
abbrev pub texts_of : Answer (List Bytes) → List Bytes
texts_of (answer texts) = texts
texts_of (failure _) = []

-- `mksquashfsSupportsZstd`. The argument is what its `sync.Once` holds, if it has run.
unfoldable pub mksquashfs_supports_zstd : Option Bool → Exec Bool
mksquashfs_supports_zstd (some known) = pure known
mksquashfs_supports_zstd none = do
  texts ← attempt (ask_names (outputs (bytes "mksquashfs") (bytes "--help" ∷ [])))
  pure (any_contains (bytes "zstd") (texts_of texts))

-- `mkerofsSupportsFeature`, which is called under `if false` only.
unfoldable pub mkerofs_supports_feature : Option (Bool × Bool) → Exec (Bool × Bool)
mkerofs_supports_feature (some known) = pure known
mkerofs_supports_feature none = do
  texts ← attempt (ask_names (outputs (bytes "mkfs.erofs") (bytes "--help" ∷ [])))
  pure (
    any_contains (bytes "zstd") (texts_of texts),
    any_contains (bytes "workers") (texts_of texts),
  )

abbrev pub exclude_prefix : Filesystem → Bytes
exclude_prefix squashfs = bytes "stacker-squashfs-exclude-"
exclude_prefix erofs = bytes "stacker-erofs-exclude-"

abbrev pub image_prefix : Filesystem → Bytes
image_prefix squashfs = bytes "stacker-squashfs-img-"
image_prefix erofs = bytes "stacker-erofs-img-"

abbrev pub maker : Filesystem → Bytes
maker squashfs = bytes "mksquashfs"
maker erofs = bytes "mkfs.erofs"

-- Does the program compress by zstd? `MakeErofs` leaves that out as experimental.
abbrev pub uses_zstd : Filesystem → Option Bool → Exec Bool
uses_zstd squashfs once = mksquashfs_supports_zstd once
uses_zstd erofs once = pure false

abbrev pub compression_of : Filesystem → Bool → Bytes
compression_of squashfs zstd = if zstd then bytes "zstd" else bytes "gzip"
compression_of erofs zstd = bytes "lz4hc"

abbrev pub exclude_arguments : Bytes → Option Bytes → List Bytes
exclude_arguments flag none = []
exclude_arguments flag (some file) = flag ∷ file ∷ []

abbrev pub make_arguments : Filesystem → Bytes → Bytes → Bool → Option Bytes → List Bytes
make_arguments squashfs rootfs img zstd excludes =
    (rootfs ∷ img ∷ [])
    ++ ((if zstd then bytes "-comp" ∷ bytes "zstd" ∷ [] else [])
        ++ exclude_arguments (bytes "-ef") excludes)
make_arguments erofs rootfs img zstd excludes =
    (img ∷ rootfs ∷ []) ++ exclude_arguments (bytes "--exclude-path") excludes

-- What the functions return: the open image, its media type and its root hash.
pub record Made : Type 0 where
  pub blob : ℕ
  pub media_type : Bytes
  pub root_hash : Bytes

-- From the run of the program to the end.
unfoldable pub build : Filesystem → Option Bool → Bytes → Bool → Option Bytes → Bytes → Exec Made
build fs once rootfs verity excludes img = do
  zstd ← uses_zstd fs once
  act (run (maker fs) (make_arguments fs rootfs img zstd excludes))
  hash ← (if verity then append_verity_data img else pure [])
  fd ← ask_number (open_file img)
  pure (record { blob = fd; media_type = generated fs (compression_of fs zstd); root_hash = hash })

-- `os.CreateTemp` and the deferred `os.Remove`.
unfoldable pub with_temp {ℓ} : {A : Type ℓ} → Bytes → Bytes → (Bytes → Exec A) → Exec A
with_temp tempdir prefix body = do
  name ← ask_text (create_temp tempdir prefix)
  always (body name) (act_ignoring (remove name))

-- The image is closed and removed, and its name is used.
unfoldable pub make_from :
    Filesystem → Option Bool → Bytes → Bytes → Bool → Option Bytes → Exec Made
make_from fs once tempdir rootfs verity excludes = with_temp tempdir (image_prefix fs) λ img. do
  act_ignoring (close_temp img)
  act_ignoring (remove img)
  build fs once rootfs verity excludes img

abbrev pub write_error : Answer (Unit {0}) → Exec (Unit {0})
write_error (answer _) = pure tt
write_error (failure e) = fail e

-- `excludes.WriteString` and `excludes.Close`: the file is closed before the error is looked at.
unfoldable pub write_excludes : Bytes → Bytes → Exec (Unit {0})
write_excludes file text = do
  written ← attempt (act (write_text file text))
  act_ignoring (close_temp file)
  write_error written

abbrev pub exclude_text : Option ExcludePaths → Bytes
exclude_text none = []
exclude_text (some eps) = print eps

-- `MakeSquashfs` and `MakeErofs`
unfoldable pub make_image :
    Filesystem → Option Bool → Bytes → Bytes → Option ExcludePaths → Bool → Exec Made
make_image fs once tempdir rootfs eps verity =
    if is_empty (exclude_text eps)
    then make_from fs once tempdir rootfs verity none
    else with_temp tempdir (exclude_prefix fs) λ file. do
      write_excludes file (exclude_text eps)
      make_from fs once tempdir rootfs verity (some file)

abbrev pub make_squashfs : Option Bool → Bytes → Bytes → Option ExcludePaths → Bool → Exec Made
make_squashfs once tempdir rootfs eps verity = make_image squashfs once tempdir rootfs eps verity

abbrev pub make_erofs : Bytes → Bytes → Option ExcludePaths → Bool → Exec Made
make_erofs tempdir rootfs eps verity = make_image erofs none tempdir rootfs eps verity
