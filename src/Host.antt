-- ===== src/Host.antt =====
-- pkg/common/utils.go: paths, the run-time directory, programs in PATH, the user mapping.
pub mod UidMap
pub mod Which
use atomfs.Base.{
  ℕ, ◌+◌, ◌-◌, ◌≤◌, Bool, true, false, not, ◌&&◌, ◌||◌, Option, none, some, List, [], ◌∷◌, ◌++◌,
  ◌==◌, leb, if◌then◌else◌, length, take, drop, map,
}
use atomfs.Text.{
  Bytes, bytes, text_eq, is_empty, has_prefix, trim_suffix, split, fields, contains, replace_all,
}
use atomfs.FilePath.{slash, is_abs, join_path}
use atomfs.System.{
  Error, Answer, answer, failure, Result, ok, err, panic, FileInfo, Exec, pure, crash, lift, known,
  ◌>>=◌, ◌>>◌, attempt, act, ask_text, ask_names, ask_info, stat, lstat, mkdir_all, readlink,
  read_file, access, open_file, read_dir, is_not_exist,
}

-- `EnsureDir`
unfoldable pub ensure_dir : Bytes → Exec (Unit {0})
ensure_dir dir = act (mkdir_all dir)

abbrev pub exists_unless : Answer FileInfo → Bool
exists_unless (answer _) = true
exists_unless (failure e) = not (is_not_exist e)

-- `PathExists`: an error other than "does not exist" counts as existing.
unfoldable pub path_exists : Bytes → Exec Bool
path_exists d = do found ← attempt (ask_info (stat d)); pure (exists_unless found)

-- `ReplacePathSeparators` reads `p[0]`.
unfoldable pub replace_path_separators : Bytes → Result Bytes
replace_path_separators [] = panic
replace_path_separators (c ∷ p) = ok (replace_all slash b'-' (if c == slash then p else c ∷ p))

-- `val[5 : len(val)-1]`
unfoldable pub namespace_number : Bytes → Result Bytes
namespace_number val = if leb 6 (length val) then ok (take (length val - 6) (drop 5 val)) else panic

-- `GetMountNSName`
unfoldable pub get_mount_ns_name : Exec Bytes
get_mount_ns_name = do
  val ← ask_text (readlink (bytes "/proc/self/ns/mnt"))
  lift (namespace_number val)

abbrev pub test_override_key : Bytes
test_override_key = bytes "ATOMFS_TEST_RUN_DIR"

abbrev pub runtime_dir_of : Bytes → Bytes → Bytes
runtime_dir_of override metadir =
    if is_empty override
    then (if is_empty metadir then bytes "/run/atomfs" else metadir)
    else override

-- `RuntimeDir`
unfoldable pub runtime_dir : Bytes → Exec Bytes
runtime_dir metadir = known (λ k. runtime_dir_of (k.env test_override_key) metadir)

-- `IsEmptyDir`
unfoldable pub is_empty_dir : Bytes → Exec Bool
is_empty_dir path = do
  act (open_file path)
  names ← ask_names (read_dir path)
  pure (elim names [ [] ↦ true | _ ∷ _ ↦ false ])

-- Where `whichSearch` looks.
unfoldable pub candidates : Bytes → List Bytes → List Bytes
candidates name paths =
    if contains name (bytes "/")
    then (if is_abs name then name ∷ [] else (bytes "./" ++ name) ∷ [])
    else map (λ p. join_path (p ∷ name ∷ [])) paths

abbrev pub first_or : Answer (Unit {0}) → Bytes → Exec Bytes → Exec Bytes
first_or (answer _) p rest = pure p
first_or (failure _) p rest = rest

unfoldable pub first_executable : List Bytes → Exec Bytes
first_executable [] = pure []
first_executable (p ∷ ps) = do
  done ← attempt (act (access p))
  first_or done p (first_executable ps)

-- `whichSearch`; the empty text says that there is none.
unfoldable pub which_search : Bytes → List Bytes → Exec Bytes
which_search name paths = first_executable (candidates name paths)

-- `Which`
unfoldable pub which : Bytes → Exec Bytes
which name = do path ← known (λ k. k.env (bytes "PATH")); which_search name (split b':' path)

-- `!os.SameFile`: the device and the inode.
abbrev pub other_file : FileInfo → Answer FileInfo → Bool
other_file a (answer b) = not (a.device == b.device && a.inode == b.inode)
other_file a (failure _) = true

-- `FileChanged`
unfoldable pub file_changed : FileInfo → Bytes → Exec Bool
file_changed a path = do b ← attempt (ask_info (lstat path)); pure (other_file a b)

abbrev pub is_whole_range : List Bytes → Bool
is_whole_range (a ∷ b ∷ c ∷ []) =
    text_eq a (bytes "0") && (text_eq b (bytes "0") && text_eq c (bytes "4294967295"))
is_whole_range _ = false

abbrev pub is_one_line : List Bytes → Bool
is_one_line (line ∷ []) = is_whole_range (fields line)
is_one_line _ = false

-- `uidmapIsHost`
unfoldable pub uidmap_is_host : Bytes → Bool
uidmap_is_host oneline =
    let text = trim_suffix oneline (bytes "\n") in
    if is_empty text then false else is_one_line (split b'\n' text)

abbrev pub host_map : Answer Bytes → Bool
host_map (answer text) = uidmap_is_host text
host_map (failure _) = false

-- `AmHostRoot`
unfoldable pub am_host_root : Exec Bool
am_host_root = do
  uid ← known (λ k. k.euid)
  if not (uid == 0) then pure false else do
    text ← attempt (ask_text (read_file (bytes "/proc/self/uid_map")))
    pure (host_map text)
