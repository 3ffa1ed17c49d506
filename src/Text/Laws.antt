-- ===== src/Text/Laws.antt =====
-- Laws of the text functions: cutting and joining, prefixes and suffixes.
use atomfs.Base.{
  reverse, length-append, ℕ, ◌≡◌, refl, Bool, true, false, List, [], ◌∷◌, ◌++◌, arith, ◌==◌, length,
  drop, All,
}
use mathlib.Core.List.{reverse-cons, reverse-append, reverse-reverse}
use atomfs.Text.{Bytes, has_prefix, trim_prefix, has_suffix, trim_suffix, split_by, split, join}

-- No byte of the text passes the test.
abbrev pub Lacks : (ℕ → Bool) → Bytes → Type 0
Lacks p s = All (λ c. p c ≡ false) s

abbrev pub sep_test : ℕ → ℕ → Bool
sep_test sep c = c == sep

pub has_prefix-append : (p s : Bytes) → has_prefix (p ++ s) p ≡ true
unfolding has_prefix
has_prefix-append [] s = refl
has_prefix-append (c ∷ p) s = ground (arith, has_prefix-append p s)

pub drop-append : (p s : Bytes) → drop (length p) (p ++ s) ≡ s
drop-append [] s = refl
drop-append (c ∷ p) s = drop-append p s

pub trim_prefix-append : (p s : Bytes) → trim_prefix (p ++ s) p ≡ s
unfolding trim_prefix
trim_prefix-append p s = rw (has_prefix-append p s) (drop-append p s)

-- The part that stands at the front of a cut, and what follows it.
pub split_by-extend :
    (p : ℕ → Bool) (w s : Bytes) (v : Bytes) (vs : List Bytes)
    → Lacks p w
    → split_by p s ≡ v ∷ vs
    → split_by p (w ++ s) ≡ (w ++ v) ∷ vs
unfolding split_by
split_by-extend p [] s v vs h e = e
split_by-extend p (c ∷ w) s v vs (hc, h) e = rw (hc, split_by-extend p w s v vs h e)

pub split_by-Lacks : (p : ℕ → Bool) (w : Bytes) → Lacks p w → split_by p w ≡ w ∷ []
unfolding split_by
split_by-Lacks p [] h = refl
split_by-Lacks p (c ∷ w) (hc, h) = rw (hc, split_by-Lacks p w h)

-- A text that lacks the separator, the separator, and a rest.
pub split_by_at :
    (p : ℕ → Bool) (w : Bytes) (sep : ℕ) (s : Bytes)
    → Lacks p w
    → p sep ≡ true
    → split_by p (w ++ (sep ∷ s)) ≡ w ∷ split_by p s
unfolding split_by
split_by_at p [] sep s h e = rw e
split_by_at p (c ∷ w) sep s (hc, h) e = rw (hc, split_by_at p w sep s h e)

pub split_at :
    (w : Bytes) (sep : ℕ) (s : Bytes)
    → Lacks (sep_test sep) w
    → split sep (w ++ (sep ∷ s)) ≡ w ∷ split sep s
unfolding split
split_at w sep s h = split_by_at (sep_test sep) w sep s h (ground arith)

pub split-Lacks : (w : Bytes) (sep : ℕ) → Lacks (sep_test sep) w → split sep w ≡ w ∷ []
unfolding split
split-Lacks w sep h = split_by-Lacks (sep_test sep) w h

-- Cutting a joined text gives the parts back, if there is a part and none holds the separator.
pub split-join :
    (sep : ℕ) (w : Bytes) (ws : List Bytes)
    → All (Lacks (sep_test sep)) (w ∷ ws)
    → split sep (join (sep ∷ []) (w ∷ ws)) ≡ w ∷ ws
unfolding join
split-join sep w [] (h, _) = split-Lacks w sep h
split-join sep w (v ∷ ws) (h, hs) =
    rw (split_at w sep (join (sep ∷ []) (v ∷ ws)) h, split-join sep v ws hs)

length-reverse : (s : Bytes) → length (reverse s) ≡ length s
length-reverse [] = refl
length-reverse (c ∷ s) =
    rw reverse-cons (omega (arith, length-append (reverse s) (c ∷ []), length-reverse s))

pub trim_suffix-append : (s p : Bytes) → trim_suffix (s ++ p) p ≡ s
unfolding trim_suffix has_suffix
trim_suffix-append s p =
    rw (reverse-append s p, has_prefix-append (reverse p) (reverse s))
      (rw (← length-reverse p, drop-append (reverse p) (reverse s)) (reverse-reverse s))
