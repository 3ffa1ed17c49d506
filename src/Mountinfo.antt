-- ===== src/Mountinfo.antt =====
-- pkg/mount/mountinfo.go: the mount table of /proc/self/mountinfo.
pub mod Lines
pub mod Find
use atomfs.Base.{
  ℕ, Bool, true, false, Option, none, some, List, [], ◌∷◌, ◌++◌, ◌==◌, ltb, if◌then◌else◌, length,
  reverse, get_elem?, drop,
}
use atomfs.Text.{
  Bytes, bytes, text_eq, has_prefix, has_suffix, trim_prefix, trim_suffix, trim_right, split,
  fields,
}
use atomfs.FilePath.{slash}
use atomfs.System.{
  Error, not_overlay, no_lowerdirs, Result, ok, err, panic, and_then, Exec, pure, lift, ◌>>=◌,
  ask_text, read_file,
}

pub record Mount : Type 0 where
  pub source : Bytes
  pub target : Bytes
  pub fs_type : Bytes
  pub opts : List Bytes

abbrev pub no_mount : Mount
no_mount = record { source = []; target = []; fs_type = []; opts = [] }

-- The loop of `GetOverlayDirs` over the options.
unfoldable pub find_lowerdir : List Bytes → Result (List Bytes)
find_lowerdir [] = err no_lowerdirs
find_lowerdir (opt ∷ opts) =
    let rest = find_lowerdir opts in
    if has_prefix opt (bytes "lowerdir=")
    then ok (split b':' (trim_prefix opt (bytes "lowerdir=")))
    else rest

unfoldable pub get_overlay_dirs : Mount → Result (List Bytes)
get_overlay_dirs m =
    if text_eq m.fs_type (bytes "overlay") then find_lowerdir m.opts else err not_overlay

-- `Mounts.FindMount`
unfoldable pub find_mount : List Mount → Bytes → Option Mount
find_mount [] p = none
find_mount (m ∷ ms) p = let rest = find_mount ms p in if text_eq m.target p then some m else rest

-- What follows a lone dash: the type, the source and the options; a missing field is a panic.
unfoldable pub after_dash : Mount → List Bytes → Result Mount
after_dash m (fs ∷ src ∷ os ∷ _) =
    ok (record m { fs_type = fs; source = src; opts = split b',' os })
after_dash m _ = panic

-- The loop over `fields[5:]`, which goes on behind a dash.
unfoldable pub scan_fields : Mount → List Bytes → Result Mount
scan_fields m [] = ok m
scan_fields m (w ∷ rest) = elim (text_eq w (bytes "-")) [
  | true ↦ and_then (after_dash m rest) (λ m'. scan_fields m' rest)
  | false ↦ scan_fields m rest
]

-- A line with fewer than five fields is a panic.
unfoldable pub parse_fields : List Bytes → Result Mount
parse_fields (_ ∷ _ ∷ _ ∷ _ ∷ target ∷ rest) =
    scan_fields (record no_mount { target = target }) rest
parse_fields _ = panic

unfoldable pub parse_line : Bytes → Result Mount
parse_line line = parse_fields (fields line)

unfoldable pub parse_lines : List Bytes → Result (List Mount)
parse_lines [] = ok []
parse_lines (line ∷ lines) =
    and_then (parse_line line) (λ m. and_then (parse_lines lines) (λ ms. ok (m ∷ ms)))

-- The lines that a `bufio.Scanner` gives: a carriage return at the end is dropped, and so is an
-- empty last line; a line of 64 KiB ends the scan, which the caller does not notice.
unfoldable pub scan_lines : List Bytes → List Bytes
scan_lines [] = []
scan_lines ([] ∷ []) = []
scan_lines (line ∷ lines) =
    let rest = scan_lines lines in
    if ltb (length line) 65536 then trim_suffix line (bytes "\r") ∷ rest else []

abbrev pub mountinfo_path : Bytes
mountinfo_path = bytes "/proc/self/mountinfo"

unfoldable pub parse_mounts : Exec (List Mount)
parse_mounts = do
  text ← ask_text (read_file mountinfo_path)
  lift (parse_lines (scan_lines (split b'\n' text)))

-- The function `FindMount`.
unfoldable pub find_mount_at : Bytes → Exec (Option Mount)
find_mount_at target = do mounts ← parse_mounts; pure (find_mount mounts (trim_right slash target))

abbrev pub is_found {ℓ} : {A : Type ℓ} → Option A → Bool
is_found none = false
is_found (some _) = true

-- The function `IsMountpoint`.
unfoldable pub is_mountpoint : Bytes → Exec Bool
is_mountpoint target = do found ← find_mount_at target; pure (is_found found)
