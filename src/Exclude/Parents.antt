-- ===== src/Exclude/Parents.antt =====
-- What `AddInclude` removes: exactly the directory that it starts from and its parents.
use atomfs.Base.{
  ℕ, zero, suc, ◌<◌, ◌≡◌, refl, Bool, true, false, not, ◌&&◌, ◌||◌, some, List, [], ◌∷◌, ◌++◌,
  arith, if◌then◌else◌, length, All, All-append,
}
use atomfs.Text.{Bytes, bytes, text_eq, text_eq_iff, is_empty}
use atomfs.FilePath.{slash, dir}
use atomfs.FilePath.Laws.{IsElement, path_of, dir-path_of}
use atomfs.Exclude.{member, delete, remove_parents}

pub member-delete :
    (p q : Bytes) (ps : List Bytes)
    → member q (delete p ps) ≡ (if text_eq p q then false else member q ps)
unfolding member delete
member-delete p q [] = ground arith
member-delete p q (r ∷ ps) =
    ground (arith, member-delete p q ps, text_eq_iff r p, text_eq_iff r q, text_eq_iff p q)

-- Is the path one of the directories from `rs` up, the root left out? The last element comes first.
abbrev pub unroll : List Bytes → List Bytes
unroll [] = []
unroll (c ∷ rs) = unroll rs ++ (c ∷ [])

unfoldable pub is_parent : Bytes → List Bytes → Bool
is_parent q [] = false
is_parent q (c ∷ rs) = text_eq (path_of (unroll (c ∷ rs))) q || is_parent q rs

All-unroll : (rs : List Bytes) → All IsElement rs → All IsElement (unroll rs)
All-unroll [] h = h
All-unroll (c ∷ rs) (h, hs) = All-append IsElement (unroll rs) (c ∷ []) (All-unroll rs hs) (h, tt)

-- A path with an element is not the root.
not_root_slashed :
    (c t : Bytes) → is_empty c ≡ false → text_eq (slash ∷ (c ++ t)) (bytes "/") ≡ false
unfolding text_eq
not_root_slashed [] t h = cc
not_root_slashed (a ∷ c) t h = refl

not_root_append :
    (cs : List Bytes) (c : Bytes)
    → All IsElement cs
    → IsElement c
    → text_eq (path_of (cs ++ (c ∷ []))) (bytes "/") ≡ false
not_root_append [] c hs h = not_root_slashed c [] h.not_empty
not_root_append (d ∷ cs) c (hd, hs) h = not_root_slashed d _ hd.not_empty

pub not_root :
    (c : Bytes) (rs : List Bytes)
    → IsElement c
    → All IsElement rs
    → text_eq (path_of (unroll (c ∷ rs))) (bytes "/") ≡ false
not_root c rs h hs = not_root_append (unroll rs) c (All-unroll rs hs) h

pub dir-unroll :
    (c : Bytes) (rs : List Bytes)
    → IsElement c
    → All IsElement rs
    → dir (path_of (unroll (c ∷ rs))) ≡ path_of (unroll rs)
dir-unroll c rs h hs = dir-path_of (unroll rs) c (All-unroll rs hs) h

pub root : text_eq (bytes "/") (bytes "/") ≡ true
unfolding text_eq
root = refl

-- The loop ends, and takes out the directory that it starts from with its parents.
pub remove_parents_lem :
    (fuel : ℕ) (rs : List Bytes) (ex : List Bytes)
    → All IsElement rs
    → length rs < fuel
    → (ex' : List Bytes) × (remove_parents fuel (path_of (unroll rs)) ex ≡ some ex')
      × ((q : Bytes) → member q ex' ≡ (not (is_parent q rs) && member q ex))
unfolding remove_parents is_parent
remove_parents_lem zero rs ex h f = absurd (omega arith)
remove_parents_lem (suc fuel) [] ex h f = (ex, rw root, λ q. ground arith)
remove_parents_lem (suc fuel) (c ∷ rs) ex (h, hs) f =
    let (ex', e, m) =
      remove_parents_lem fuel rs (delete (path_of (unroll (c ∷ rs))) ex) hs (omega arith) in
    (
      ex',
      rw (not_root c rs h hs, dir-unroll c rs h hs) e,
      λ q. rw (m q, member-delete) (ground arith),
    )
