-- ===== src/Tests/Paths.antt =====
-- The excluded paths.
use atomfs.Base.{ℕ, ◌≡◌, ◌↔◌, refl, true, false, not, ◌&&◌, some, [], ◌∷◌, ◌++◌, arith, inl}
use atomfs.Text.{Bytes, bytes, split, join, text_eq}
use atomfs.FilePath.{dir, up_to_last, clean, resolve, is_abs}
use atomfs.FilePath.Laws.{IsElement, path_of}
use atomfs.Exclude.{
  ExcludePaths, new_exclude_paths, member, add, delete, prefixes_one, add_exclude, add_include,
  remove_parents, first_dir,
}
use atomfs.Exclude.Parents.{is_parent, unroll}
use atomfs.Exclude.Invariant.{add_include-removes_parents}
use atomfs.Exclude.Ending.{add_include-ends_iff}
use atomfs.Exclude.Walk.{Walk, start, exclude, include, IsAbove, Walk-clear}

abbrev paths : ExcludePaths
paths = record {
  exclude = bytes "/a" ∷ bytes "/a/b" ∷ bytes "/c" ∷ [];
  include = bytes "/ab/x" ∷ [];
}

directory : first_dir (bytes "/a/b/f") false ≡ path_of (unroll (bytes "b" ∷ bytes "a" ∷ []))
unfolding dir up_to_last clean resolve split is_abs join
directory = refl

IsElement-a : IsElement (bytes "a")
unfolding text_eq
IsElement-a = record { lacks = ground arith; not_empty = refl; not_dot = refl; not_dots = refl }

IsElement-b : IsElement (bytes "b")
unfolding text_eq
IsElement-b = record { lacks = ground arith; not_empty = refl; not_dot = refl; not_dots = refl }

add_include-removes_parents_example :
    (eps' : ExcludePaths) × (add_include 3 (bytes "/a/b/f") false paths ≡ some eps')
    × (eps'.include ≡ paths.include ++ (bytes "/a/b/f" ∷ []))
    × ((q : Bytes)
        → member q eps'.exclude
          ≡ (not (is_parent q (bytes "b" ∷ bytes "a" ∷ [])) && member q paths.exclude))
add_include-removes_parents_example =
    add_include-removes_parents 3 (bytes "/a/b/f") false paths (bytes "b" ∷ bytes "a" ∷ [])
      (IsElement-b, (IsElement-a, tt)) directory (ground arith)

-- A relative path: the loop comes to "." and stays there.
add_include-ends_iff_example :
    ((fuel : ℕ) × (eps' : ExcludePaths) × (add_include fuel (bytes "a/f") false paths ≡ some eps'))
    ↔ (is_abs (first_dir (bytes "a/f") false) ≡ true)
add_include-ends_iff_example = add_include-ends_iff (bytes "a/f") false paths

-- A walk that excludes two directories, and then finds a file below one of them.
abbrev excluded : ExcludePaths
excluded = add_exclude (bytes "/c") (add_exclude (bytes "/a") new_exclude_paths)

abbrev walked : ExcludePaths
walked = record { exclude = bytes "/c" ∷ []; include = bytes "/a/b/f" ∷ [] }

walk_includes : add_include 3 (bytes "/a/b/f") false excluded ≡ some walked
unfolding add_include remove_parents delete add_exclude prefixes_one add member text_eq dir
    up_to_last clean resolve split is_abs join
walk_includes = refl

walked-Walk : Walk walked
walked-Walk =
    include (exclude (exclude start (bytes "/a")) (bytes "/c")) 3 (bytes "/a/b/f") false
      walk_includes

IsElement-f : IsElement (bytes "f")
unfolding text_eq
IsElement-f = record { lacks = ground arith; not_empty = refl; not_dot = refl; not_dots = refl }

a-IsAbove : IsAbove (bytes "/a") (bytes "/a/b/f")
unfolding is_parent text_eq
a-IsAbove = record {
  name = bytes "f";
  parents = bytes "b" ∷ bytes "a" ∷ [];
  element = IsElement-f;
  elements = (IsElement-b, (IsElement-a, tt));
  spelled = refl;
  above = refl;
}

Walk-clear_example : member (bytes "/a") walked.exclude ≡ false
Walk-clear_example = Walk-clear walked-Walk (bytes "/a/b/f") (bytes "/a") (inl refl) a-IsAbove
