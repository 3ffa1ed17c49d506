-- ===== src/Exclude/Ending.antt =====
-- When `AddInclude` ends: its loop goes up to "/", which only an absolute path reaches.
use atomfs.Base.{
  ℕ, zero, suc, ◌≡◌, ◌↔◌, refl, sym, ap, ◌∙◌, Bool, true, false, Bool-cases, none, some, none-some,
  List, [], ◌∷◌, ◌++◌, arith, length, append_assoc, append-nil, All, inl, inr,
}
use atomfs.Text.{Bytes, bytes, text_eq, has_prefix}
use atomfs.FilePath.{is_abs, dir}
use atomfs.FilePath.Laws.{IsElement, path_of}
use atomfs.FilePath.Absolute.{dir_absolute, dir_relative}
use atomfs.Exclude.{ExcludePaths, delete, remove_parents, first_dir, with_include, add_include}
use atomfs.Exclude.Parents.{unroll, remove_parents_lem}

not_root_relative : (p : Bytes) → is_abs p ≡ false → text_eq p (bytes "/") ≡ false
unfolding is_abs text_eq has_prefix
not_root_relative [] r = refl
not_root_relative (c ∷ p) r = ground arith

remove_parents_relative :
    (fuel : ℕ) (p : Bytes) (ex : List Bytes) → is_abs p ≡ false → remove_parents fuel p ex ≡ none
unfolding remove_parents
remove_parents_relative zero p ex r = refl
remove_parents_relative (suc fuel) p ex r =
    rw (not_root_relative p r)
      (remove_parents_relative fuel (dir p) (delete p ex) (dir_relative p r))

-- The elements with the last one first, behind others.
rolled_onto :
    (cs rs : List Bytes)
    → All IsElement cs
    → All IsElement rs
    → (ts : List Bytes) × All IsElement ts × (unroll ts ≡ unroll rs ++ cs)
rolled_onto [] rs h hr = (rs, hr, sym (append-nil (unroll rs)))
rolled_onto (c ∷ cs) rs (h, hs) hr =
    let (ts, ht, e) = rolled_onto cs (c ∷ rs) hs (h, hr) in
    (ts, ht, e ∙ append_assoc (unroll rs) (c ∷ []) cs)

remove_parents_absolute :
    (p : Bytes) (ex : List Bytes)
    → is_abs p ≡ true
    → (fuel : ℕ) × (ex' : List Bytes) × (remove_parents fuel p ex ≡ some ex')
unfolding remove_parents
remove_parents_absolute p ex r =
    let (cs, hs, e) = dir_absolute p r in
    let (rs, hr, u) = rolled_onto cs [] hs tt in
    let (ex', done, _) = remove_parents_lem (suc (length rs)) rs (delete p ex) hr (omega arith) in
    elim (Bool-cases (text_eq p (bytes "/"))) [
      | inl f ↦ (suc (suc (length rs)), ex, rw f refl)
      | inr f ↦ (suc (suc (length rs)), ex', rw (f, e ∙ ap path_of (sym u)) done)
    ]

-- `AddInclude` ends exactly if the directory that it starts from is absolute; with a relative path
-- its loop goes on for ever.
pub add_include-ends_iff :
    (orig : Bytes) (is_dir : Bool) (eps : ExcludePaths)
    → ((fuel : ℕ) × (eps' : ExcludePaths) × (add_include fuel orig is_dir eps ≡ some eps'))
      ↔ (is_abs (first_dir orig is_dir) ≡ true)
unfolding add_include
add_include-ends_iff orig is_dir eps = (ends, reaches)
  where
    ends :
        ((fuel : ℕ) × (eps' : ExcludePaths) × (add_include fuel orig is_dir eps ≡ some eps'))
        → is_abs (first_dir orig is_dir) ≡ true
    ends (fuel, eps', e) = elim (Bool-cases (is_abs (first_dir orig is_dir))) [
      | inl r ↦ r
      | inr r ↦ absurd (
          none-some
            (sym (ap (with_include eps orig) (remove_parents_relative fuel _ eps.exclude r)) ∙ e))
    ]

    reaches :
        is_abs (first_dir orig is_dir) ≡ true
        → (fuel : ℕ) × (eps' : ExcludePaths) × (add_include fuel orig is_dir eps ≡ some eps')
    reaches r =
        let (fuel, ex, e) = remove_parents_absolute (first_dir orig is_dir) eps.exclude r in
        (fuel, record { exclude = ex; include = eps.include ++ (orig ∷ []) }, rw e refl)
