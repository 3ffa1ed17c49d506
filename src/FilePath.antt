-- ===== src/FilePath.antt =====
-- The functions of `path` and `path/filepath` (on Unix) that the program calls.
pub mod Absolute
pub mod Laws
use atomfs.Base.{ℕ, Bool, true, false, not, ◌&&◌, ◌||◌, List, [], ◌∷◌, ◌++◌, ◌==◌, if◌then◌else◌}
use atomfs.Text.{Bytes, bytes, text_eq, is_empty, has_prefix, split, join, trim_right}
use atomfs.System.{Exec, pure, ◌>>=◌, ask_text, getwd}

abbrev pub slash : ℕ
slash = b'/'

-- `filepath.IsAbs`
unfoldable pub is_abs : Bytes → Bool
unfolding has_prefix
is_abs p = has_prefix p (bytes "/")

abbrev pub reverse_onto : List Bytes → List Bytes → List Bytes
reverse_onto [] st = st
reverse_onto (c ∷ cs) st = reverse_onto cs (c ∷ st)

-- What `..` does to the elements read so far, the last one first.
unfoldable pub go_up : Bool → List Bytes → List Bytes
unfolding text_eq
go_up rooted [] = if rooted then [] else bytes ".." ∷ []
go_up rooted (c ∷ st) = if text_eq c (bytes "..") then bytes ".." ∷ c ∷ st else st

unfoldable pub resolve_step : Bool → List Bytes → Bytes → List Bytes
unfolding text_eq go_up
resolve_step rooted st c =
    if is_empty c || text_eq c (bytes ".")
    then st
    else if text_eq c (bytes "..")
    then go_up rooted st
    else c ∷ st

unfoldable pub resolve : Bool → List Bytes → List Bytes → List Bytes
unfolding resolve_step
resolve rooted st [] = st
resolve rooted st (c ∷ cs) = resolve rooted (resolve_step rooted st c) cs

abbrev pub or_dot : Bytes → Bytes
or_dot [] = bytes "."
or_dot (c ∷ p) = c ∷ p

-- `filepath.Clean`, `path.Clean`
unfoldable pub clean : Bytes → Bytes
clean p =
    let cs = join (bytes "/") (reverse_onto (resolve (is_abs p) [] (split slash p)) []) in
    if is_abs p then slash ∷ cs else or_dot cs

-- `filepath.Join`, `path.Join`: leading empty elements are dropped.
unfoldable pub join_path : List Bytes → Bytes
join_path [] = []
join_path ([] ∷ ps) = join_path ps
join_path ((c ∷ p) ∷ ps) = clean (join (bytes "/") ((c ∷ p) ∷ ps))

-- The text up to its last slash, that slash included.
unfoldable pub up_to_last : Bytes → Bytes
up_to_last [] = []
up_to_last (c ∷ p) =
    let rest = up_to_last p in if (c == slash) || not (is_empty rest) then c ∷ rest else []

-- `filepath.Dir`, `path.Dir`
unfoldable pub dir : Bytes → Bytes
dir p = clean (up_to_last p)

abbrev pub last_or : Bytes → List Bytes → Bytes
last_or d [] = d
last_or d (c ∷ cs) = last_or c cs

abbrev pub or_root : Bytes → Bytes
or_root [] = bytes "/"
or_root (c ∷ p) = c ∷ p

-- `filepath.Base`, `path.Base`
unfoldable pub base : Bytes → Bytes
base p = if is_empty p then bytes "." else or_root (last_or [] (split slash (trim_right slash p)))

-- `filepath.Abs`
unfoldable pub abs : Bytes → Exec Bytes
abs p = if is_abs p then pure (clean p) else do wd ← ask_text getwd; pure (join_path (wd ∷ p ∷ []))
