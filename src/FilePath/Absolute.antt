-- ===== src/FilePath/Absolute.antt =====
-- `Clean` and `Dir` on any path: whether it is absolute, and the elements that are left of it.
use atomfs.Base.{
  ℕ, Bool, true, false, ◌||◌, Bool-cases, ◌≡◌, refl, List, [], ◌∷◌, arith, All, inl, inr,
}
use atomfs.Text.{Bytes, bytes, text_eq, is_empty, has_prefix, extend, split_by, split, join}
use atomfs.Text.Laws.{Lacks, sep_test}
use atomfs.FilePath.{
  slash, is_abs, reverse_onto, go_up, resolve_step, resolve, or_dot, clean, up_to_last, dir,
}
use atomfs.FilePath.Laws.{IsElement, path_of, slash-join}

split_by-All : (p : ℕ → Bool) (s : Bytes) → All (Lacks p) (split_by p s)
unfolding split_by
split_by-All p [] = (tt, tt)
split_by-All p (c ∷ s) = elim (Bool-cases (p c)) [
  | inl e ↦ rw e (tt, split_by-All p s)
  | inr e ↦ rw e (onto (split_by p s) (split_by-All p s) e)
]
  where
    onto : {c : ℕ} (ws : List Bytes) → All (Lacks p) ws → p c ≡ false → All (Lacks p) (extend c ws)
    onto [] h e = ((e, tt), tt)
    onto (w ∷ ws) (h, hs) e = ((e, h), hs)

All-reverse_onto :
    (P : Bytes → Type 0) (cs st : List Bytes) → All P cs → All P st → All P (reverse_onto cs st)
All-reverse_onto P [] st h k = k
All-reverse_onto P (c ∷ cs) st (h, hs) k = All-reverse_onto P cs (c ∷ st) hs (h, k)

-- An element of a relative path; `..` may be one.
abbrev IsPart : Bytes → Type 0
IsPart c = Lacks (sep_test slash) c × (is_empty c ≡ false)

-- The elements that are left are those of their kind.
module _ (rooted : Bool) (P : Bytes → Type 0)
    (keeps : (c : Bytes)
      → Lacks (sep_test slash) c
      → (is_empty c || text_eq c (bytes ".")) ≡ false
      → text_eq c (bytes "..") ≡ false
      → P c)
    (up : (st : List Bytes) → All P st → All P (go_up rooted st)) where
  resolve_step-All :
      (st : List Bytes) (c : Bytes)
      → Lacks (sep_test slash) c
      → All P st
      → All P (resolve_step rooted st c)
  unfolding resolve_step
  resolve_step-All st c l h = elim (Bool-cases (is_empty c || text_eq c (bytes "."))) [
    | inl e ↦ rw e h
    | inr e ↦ elim (Bool-cases (text_eq c (bytes ".."))) [
      | inl d ↦ rw (e, d) (up st h)
      | inr d ↦ rw (e, d) (keeps c l e d, h)
    ]
  ]

  resolve-All :
      (st cs : List Bytes)
      → All (Lacks (sep_test slash)) cs
      → All P st
      → All P (resolve rooted st cs)
  unfolding resolve
  resolve-All st [] l h = h
  resolve-All st (c ∷ cs) (l, ls) h =
      resolve-All (resolve_step rooted st c) cs ls (resolve_step-All st c l h)

  elements-All : (p : Bytes) → All P (reverse_onto (resolve rooted [] (split slash p)) [])
  unfolding split
  elements-All p =
      All-reverse_onto P (resolve rooted [] (split slash p)) []
        (resolve-All [] (split slash p) (split_by-All (sep_test slash) p) tt) tt

go_up-IsElement : (st : List Bytes) → All IsElement st → All IsElement (go_up true st)
unfolding go_up
go_up-IsElement [] h = tt
go_up-IsElement (c ∷ st) (h, hs) = rw h.not_dots hs

go_up-IsPart : (st : List Bytes) → All IsPart st → All IsPart (go_up false st)
unfolding go_up
go_up-IsPart [] h = (ground arith, tt)
go_up-IsPart (c ∷ st) (h, hs) = elim (Bool-cases (text_eq c (bytes ".."))) [
  | inl e ↦ rw e (ground arith, (h, hs))
  | inr e ↦ rw e hs
]

-- `Clean` spells an absolute path by elements.
pub clean-path_of :
    (p : Bytes) → is_abs p ≡ true → (cs : List Bytes) × All IsElement cs × (clean p ≡ path_of cs)
unfolding clean
clean-path_of p r =
    go (reverse_onto (resolve true [] (split slash p)) [])
      (elements-All true IsElement
        (λ c l e d. record {
          lacks = l;
          not_empty = ground arith;
          not_dot = ground arith;
          not_dots = d;
        })
        go_up-IsElement p)
      (rw r refl)
  where
    go :
        (ds : List Bytes)
        → All IsElement ds
        → clean p ≡ slash ∷ join (bytes "/") ds
        → (cs : List Bytes) × All IsElement cs × (clean p ≡ path_of cs)
    go [] h e = ([], tt, unfold join in e)
    go (d ∷ ds) h e = (d ∷ ds, h, rw e (slash-join d ds))

is_abs_head : (a : ℕ) (s : Bytes) → sep_test slash a ≡ false → is_abs (a ∷ s) ≡ false
unfolding is_abs has_prefix
is_abs_head a s e = ground arith

join_relative : (cs : List Bytes) → All IsPart cs → is_abs (or_dot (join (bytes "/") cs)) ≡ false
unfolding join
join_relative [] h = is_abs_head 46 [] refl
join_relative ([] ∷ cs) ((l, n), hs) = absurd (cc n)
join_relative ((a ∷ c) ∷ []) (((l, _), n), hs) = is_abs_head a c l
join_relative ((a ∷ c) ∷ d ∷ ds) (((l, _), n), hs) = is_abs_head a _ l

clean_relative : (p : Bytes) → is_abs p ≡ false → is_abs (clean p) ≡ false
unfolding clean
clean_relative p r =
    rw r (join_relative _ (elements-All false IsPart (λ c l e d. (l, ground arith)) go_up-IsPart p))

up_to_last_relative : (p : Bytes) → is_abs p ≡ false → is_abs (up_to_last p) ≡ false
unfolding up_to_last is_abs has_prefix
up_to_last_relative [] r = refl
up_to_last_relative (c ∷ p) r = ground arith

-- The directory of a relative path is relative.
pub dir_relative : (p : Bytes) → is_abs p ≡ false → is_abs (dir p) ≡ false
unfolding dir
dir_relative p r = clean_relative (up_to_last p) (up_to_last_relative p r)

up_to_last_absolute : (p : Bytes) → is_abs p ≡ true → is_abs (up_to_last p) ≡ true
unfolding up_to_last is_abs has_prefix
up_to_last_absolute [] r = r
up_to_last_absolute (c ∷ p) r = ground arith

-- The directory of an absolute path is spelled by elements.
pub dir_absolute :
    (p : Bytes) → is_abs p ≡ true → (cs : List Bytes) × All IsElement cs × (dir p ≡ path_of cs)
unfolding dir
dir_absolute p r = clean-path_of (up_to_last p) (up_to_last_absolute p r)
