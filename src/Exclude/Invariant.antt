-- ===== src/Exclude/Invariant.antt =====
-- The operations of `ExcludePaths` as a whole: what stays excluded, and what `String` writes.
use atomfs.Base.{
  ℕ, ◌<◌, ◌≡◌, refl, Bool, true, not, ◌&&◌, ◌||◌, some, List, [], ◌∷◌, ◌++◌, arith, length, All, In,
  inl, inr,
}
use atomfs.Text.{Bytes, text_eq, text_eq_iff, split}
use atomfs.Text.Laws.{Lacks, sep_test, split_at, has_prefix-append}
use atomfs.FilePath.Laws.{IsElement, path_of}
use atomfs.Exclude.{
  ExcludePaths, member, add, prefixes_one, add_exclude, first_dir, add_include, print, print_lines,
}
use atomfs.Exclude.Parents.{unroll, is_parent, remove_parents_lem}

-- Including a path whose directory has the elements `rs`, the last one first, ends with fuel for
-- each of them. It appends the path to the included ones, and takes exactly that directory and its
-- parents below the root out of the excluded ones.
pub add_include-removes_parents :
    (fuel : ℕ) (orig : Bytes) (is_dir : Bool) (eps : ExcludePaths) (rs : List Bytes)
    → All IsElement rs
    → first_dir orig is_dir ≡ path_of (unroll rs)
    → length rs < fuel
    → (eps' : ExcludePaths) × (add_include fuel orig is_dir eps ≡ some eps')
      × (eps'.include ≡ eps.include ++ (orig ∷ []))
      × ((q : Bytes) → member q eps'.exclude ≡ (not (is_parent q rs) && member q eps.exclude))
unfolding add_include
add_include-removes_parents fuel orig is_dir eps rs h e f =
    let (ex, r, m) = remove_parents_lem fuel rs eps.exclude h f in
    (record { exclude = ex; include = eps.include ++ (orig ∷ []) }, rw (e, r), refl, m)

pub prefixes_one-In :
    (p s : Bytes) (incs : List Bytes) → In (p ++ s) incs → prefixes_one p incs ≡ true
unfolding prefixes_one
prefixes_one-In p s [] m = absurd (m tt)
prefixes_one-In p s (inc ∷ incs) (inl e) = rw (← e, has_prefix-append p s)
prefixes_one-In p s (inc ∷ incs) (inr m) = rw (prefixes_one-In p s incs m) (ground arith)

-- Excluding a path that some included path begins with, as bytes, changes nothing, also where the
-- included path does not lie below it.
add_exclude_of_prefix :
    (p s : Bytes) (eps : ExcludePaths) → In (p ++ s) eps.include → add_exclude p eps ≡ eps
unfolding add_exclude
add_exclude_of_prefix p s eps m = rw (prefixes_one-In p s eps.include m)

member-add : (p q : Bytes) (ps : List Bytes) → member q (add p ps) ≡ (text_eq p q || member q ps)
unfolding add
member-add p q ps = ground (arith, text_eq_iff p q)

-- After `AddExclude` a path is excluded exactly if it was, or if it is the new one and no included
-- path begins with it; the included paths stay.
pub add_exclude-adds :
    (p q : Bytes) (eps : ExcludePaths)
    → (member q (add_exclude p eps).exclude
        ≡ (member q eps.exclude || (text_eq p q && not (prefixes_one p eps.include))))
      × ((add_exclude p eps).include ≡ eps.include)
unfolding add_exclude
add_exclude-adds p q eps = (ground (arith, member-add p q eps.exclude), ground arith)

-- The lines of `String` are the excluded paths, if none holds a newline, and two empty lines.
split-print :
    (eps : ExcludePaths)
    → All (Lacks (sep_test b'\n')) eps.exclude
    → split b'\n' (print eps) ≡ eps.exclude ++ ([] ∷ [] ∷ [])
unfolding print
split-print eps h = go eps.exclude h
  where
    go :
        (ps : List Bytes)
        → All (Lacks (sep_test b'\n')) ps
        → split b'\n' (print_lines ps) ≡ ps ++ ([] ∷ [] ∷ [])
    go [] h = unfold split in refl
    go (p ∷ ps) (h, hs) = rw (split_at p b'\n' (print_lines ps) h, go ps hs)
