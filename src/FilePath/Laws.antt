-- ===== src/FilePath/Laws.antt =====
-- Paths that are spelled by their elements: what `Clean`, `Dir` and `Join` do to them.
use atomfs.Base.{
  Bool, true, false, ◌≡◌, refl, sym, ap, List, [], ◌∷◌, ◌++◌, append_assoc, append-nil, arith, All,
}
use atomfs.Text.{Bytes, bytes, text_eq, is_empty, split, join}
use atomfs.Text.Laws.{Lacks, sep_test, split_at}
use atomfs.FilePath.{slash, is_abs, reverse_onto, resolve_step, resolve, clean, up_to_last, dir}

-- An element that `Clean` keeps.
pub record IsElement (c : Bytes) : Type 0 where
  pub lacks : Lacks (sep_test slash) c
  pub not_empty : is_empty c ≡ false
  pub not_dot : text_eq c (bytes ".") ≡ false
  pub not_dots : text_eq c (bytes "..") ≡ false

-- Each element behind a slash.
abbrev pub slashed : List Bytes → Bytes
slashed [] = []
slashed (c ∷ cs) = slash ∷ (c ++ slashed cs)

-- The absolute path with these elements.
abbrev pub path_of : List Bytes → Bytes
path_of [] = bytes "/"
path_of (c ∷ cs) = slashed (c ∷ cs)

pub slashed-append : (cs ds : List Bytes) → slashed (cs ++ ds) ≡ slashed cs ++ slashed ds
slashed-append [] ds = refl
slashed-append (c ∷ cs) ds =
    ap (λ t. slash ∷ t) (rw (slashed-append cs ds) (sym (append_assoc c (slashed cs) (slashed ds))))

pub slash-join :
    (c : Bytes) (cs : List Bytes) → slash ∷ join (bytes "/") (c ∷ cs) ≡ slashed (c ∷ cs)
unfolding join
slash-join c [] = rw append-nil
slash-join c (d ∷ cs) = ap (λ t. slash ∷ (c ++ t)) (slash-join d cs)

-- Cutting the elements at the slashes, with a slash behind them.
split-slashed :
    (c : Bytes) (cs : List Bytes)
    → Lacks (sep_test slash) c
    → All IsElement cs
    → split slash (c ++ (slashed cs ++ bytes "/")) ≡ c ∷ (cs ++ ([] ∷ []))
split-slashed c [] h hs = rw (split_at c slash [] h) (unfold split in refl)
split-slashed c (d ∷ cs) h (hd, hs) =
    rw (
      append_assoc d (slashed cs) (bytes "/"),
      split_at c slash _ h,
      split-slashed d cs hd.lacks hs,
    )

resolve_element :
    (rooted : Bool) (st : List Bytes) (c : Bytes) → IsElement c → resolve_step rooted st c ≡ c ∷ st
unfolding resolve_step
resolve_element rooted st c h = ground arith

resolve_elements :
    (rooted : Bool) (st cs ds : List Bytes)
    → All IsElement cs
    → resolve rooted st (cs ++ ds) ≡ resolve rooted (reverse_onto cs st) ds
unfolding resolve
resolve_elements rooted st [] ds h = refl
resolve_elements rooted st (c ∷ cs) ds (h, hs) =
    rw (resolve_element rooted st c h, resolve) (resolve_elements rooted (c ∷ st) cs ds hs)

reverse_onto-reverse_onto :
    (cs st ds : List Bytes) → reverse_onto (reverse_onto cs st) ds ≡ reverse_onto st (cs ++ ds)
reverse_onto-reverse_onto [] st ds = refl
reverse_onto-reverse_onto (c ∷ cs) st ds = reverse_onto-reverse_onto cs (c ∷ st) ds

split_rooted :
    (c : Bytes) (cs : List Bytes)
    → IsElement c
    → All IsElement cs
    → split slash (slash ∷ (c ++ (slashed cs ++ bytes "/"))) ≡ [] ∷ c ∷ (cs ++ ([] ∷ []))
split_rooted c cs h hs = rw (split_at [] slash _ tt, split-slashed c cs h.lacks hs)

rooted_elements :
    (c : Bytes) (cs : List Bytes)
    → IsElement c
    → All IsElement cs
    → resolve true [] ([] ∷ c ∷ (cs ++ ([] ∷ []))) ≡ reverse_onto (c ∷ cs) []
unfolding resolve
rooted_elements c cs h hs =
    rw (resolve_element true [] c h, resolve) (resolve_elements true (c ∷ []) cs ([] ∷ []) hs)

-- `Clean` drops a slash at the end, and keeps the elements.
pub clean-slashed :
    (cs : List Bytes) → All IsElement cs → clean (slashed cs ++ bytes "/") ≡ path_of cs
unfolding clean is_abs
clean-slashed [] h = unfold resolve split join in refl
clean-slashed (c ∷ cs) (h, hs) =
    rw
      (
        append_assoc c (slashed cs) (bytes "/"),
        split_rooted c cs h hs,
        rooted_elements c cs h hs,
        reverse_onto-reverse_onto (c ∷ cs) [] [],
      )
      (rw append-nil (slash-join c cs))

pub up_to_last-Lacks : (c : Bytes) → Lacks (sep_test slash) c → up_to_last c ≡ []
unfolding up_to_last
up_to_last-Lacks [] h = refl
up_to_last-Lacks (a ∷ c) (h, hs) = rw (h, up_to_last-Lacks c hs)

pub up_to_last-append :
    (p c : Bytes) → Lacks (sep_test slash) c → up_to_last (p ++ (slash ∷ c)) ≡ p ++ bytes "/"
unfolding up_to_last
up_to_last-append [] c h = rw (up_to_last-Lacks c h)
up_to_last-append (a ∷ []) c h = rw (up_to_last-Lacks c h) (ground arith)
up_to_last-append (a ∷ b ∷ p) c h = rw (up_to_last-append (b ∷ p) c h) (ground arith)

path_of-append :
    (cs : List Bytes) (c : Bytes) → path_of (cs ++ (c ∷ [])) ≡ slashed cs ++ (slash ∷ c)
path_of-append [] c = rw append-nil
path_of-append (d ∷ cs) c = rw slashed-append (rw (append-nil, append_assoc))

-- `Dir` drops the last element.
pub dir-path_of :
    (cs : List Bytes) (c : Bytes)
    → All IsElement cs
    → IsElement c
    → dir (path_of (cs ++ (c ∷ []))) ≡ path_of cs
unfolding dir
dir-path_of cs c hs h =
    rw (path_of-append cs c, up_to_last-append (slashed cs) c h.lacks) (clean-slashed cs hs)
