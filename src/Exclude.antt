-- ===== src/Exclude.antt =====
-- pkg/common/exclude.go: the paths that an image leaves out. The map of excluded paths is a list
-- without repetition; its order stands for the iteration order of the map, which Go leaves open.
pub mod Ending
pub mod Parents
pub mod Walk
pub mod Invariant
use atomfs.Base.{
  ℕ, zero, suc, Bool, true, false, ◌&&◌, ◌||◌, Option, none, some, List, [], ◌∷◌, ◌++◌,
  if◌then◌else◌,
}
use atomfs.Text.{Bytes, bytes, text_eq, has_prefix}
use atomfs.FilePath.{dir}

pub record ExcludePaths : Type 0 where
  pub exclude : List Bytes
  pub include : List Bytes

abbrev pub new_exclude_paths : ExcludePaths
new_exclude_paths = record { exclude = []; include = [] }

-- `_, ok := m[p]`
unfoldable pub member : Bytes → List Bytes → Bool
member p [] = false
member p (q ∷ ps) = text_eq q p || member p ps

-- `m[p] = true`
unfoldable pub add : Bytes → List Bytes → List Bytes
unfolding member
add p ps = if member p ps then ps else p ∷ ps

-- `delete(m, p)`
unfoldable pub delete : Bytes → List Bytes → List Bytes
delete p [] = []
delete p (q ∷ ps) = let rest = delete p ps in if text_eq q p then rest else q ∷ rest

-- Is the path a prefix of an included one?
unfoldable pub prefixes_one : Bytes → List Bytes → Bool
prefixes_one p [] = false
prefixes_one p (inc ∷ incs) = has_prefix inc p || prefixes_one p incs

unfoldable pub add_exclude : Bytes → ExcludePaths → ExcludePaths
add_exclude p eps =
    if prefixes_one p eps.include then eps else record eps { exclude = add p eps.exclude }

-- The loop of `AddInclude` over a path and its parents. `none`: the fuel ran out.
unfoldable pub remove_parents : ℕ → Bytes → List Bytes → Option (List Bytes)
remove_parents zero p ex = none
remove_parents (suc fuel) p ex =
    let rest = remove_parents fuel (dir p) (delete p ex) in
    if text_eq p (bytes "/") then some ex else rest

abbrev pub first_dir : Bytes → Bool → Bytes
first_dir orig is_dir = if is_dir then orig else dir orig

abbrev pub with_include : ExcludePaths → Bytes → Option (List Bytes) → Option ExcludePaths
with_include eps orig none = none
with_include eps orig (some ex) =
    some (record { exclude = ex; include = eps.include ++ (orig ∷ []) })

unfoldable pub add_include : ℕ → Bytes → Bool → ExcludePaths → Option ExcludePaths
add_include fuel orig is_dir eps =
    with_include eps orig (remove_parents fuel (first_dir orig is_dir) eps.exclude)

-- `String`: one line for each excluded path, and an empty line.
unfoldable pub print_lines : List Bytes → Bytes
print_lines [] = bytes "\n"
print_lines (p ∷ ps) = p ++ (bytes "\n" ++ print_lines ps)

unfoldable pub print : ExcludePaths → Bytes
unfolding print_lines
print eps = print_lines eps.exclude
