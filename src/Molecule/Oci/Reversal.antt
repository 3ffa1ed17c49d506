-- ===== src/Molecule/Oci/Reversal.antt =====
-- The order of a molecule's atoms.
use mathlib.Core.List.{reverse-reverse, reverse-cons, reverse-append, reverse_aux, reverse_aux-eq}
use atomfs.Base.{
  ℕ, zero, suc, ◌+◌, ◌-◌, ◌*◌, ◌/◌, ◌≤◌, ◌≡◌, refl, sym, ap, fun_ext, ◌∙◌, some, List, [], ◌∷◌,
  ◌++◌, append_assoc, arith, length, length-append, length-take, length-drop, take, drop,
  take-append-drop, get_elem?, set, reverse,
}
use atomfs.System.{ok, and_then}
use atomfs.Molecule.{MountOciOpts}
use atomfs.Molecule.Oci.{swap, swaps, reversed, Engine, lookup_manifest, build_molecule}

module _ {ℓ} {A : Type ℓ} where
  get-length :
      (front back : List A) (x : A) (i : ℕ)
      → i ≡ length front
      → get_elem? (front ++ (x ∷ back)) i ≡ some x
  get-length [] back x i e = rw e
  get-length (y ∷ front) back x zero e = absurd (omega (arith, e))
  get-length (y ∷ front) back x (suc i) e = get-length front back x i (omega (arith, e))

  set-length :
      (front back : List A) (x y : A) (i : ℕ)
      → i ≡ length front
      → set (front ++ (x ∷ back)) i y ≡ front ++ (y ∷ back)
  set-length [] back x y i e = rw e
  set-length (z ∷ front) back x y zero e = absurd (omega (arith, e))
  set-length (z ∷ front) back x y (suc i) e = rw (set-length front back x y i (omega (arith, e)))

  length-reverse : (xs : List A) → length (reverse xs) ≡ length xs
  length-reverse [] = refl
  length-reverse (x ∷ xs) = rw (reverse-cons, length-append) (omega (arith, length-reverse xs))

  far_end :
      (front middle back : List A) (x y : A) (j : ℕ)
      → j ≡ length front + suc (length middle)
      → get_elem? (front ++ (x ∷ (middle ++ (y ∷ back)))) j ≡ some y
  far_end front middle back x y j f =
      rw (← append_assoc front (x ∷ middle) (y ∷ back))
        (get-length (front ++ (x ∷ middle)) back y j (rw length-append f))

  set_far_end :
      (front middle back : List A) (x y z : A) (j : ℕ)
      → j ≡ length front + suc (length middle)
      → set (front ++ (x ∷ (middle ++ (y ∷ back)))) j z ≡ front ++ (x ∷ (middle ++ (z ∷ back)))
  set_far_end front middle back x y z j f =
      rw
        (← append_assoc front (x ∷ middle) (y ∷ back), ← append_assoc front (x ∷ middle) (z ∷ back))
        (set-length (front ++ (x ∷ middle)) back y z j (rw length-append f))

  -- One exchange: the elements at both ends of the middle part.
  swap-ends :
      (front middle back : List A) (x y : A) (i j : ℕ)
      → i ≡ length front
      → j ≡ length front + suc (length middle)
      → swap i j (front ++ (x ∷ (middle ++ (y ∷ back)))) ≡ front ++ (y ∷ (middle ++ (x ∷ back)))
  unfolding swap
  swap-ends front middle back x y i j e f =
      rw
        (
          get-length front (middle ++ (y ∷ back)) x i e,
          far_end front middle back x y j f,
          set-length front (middle ++ (y ∷ back)) x y i e,
        )
        (set_far_end front middle back y y x j f)

  -- One pass of the loop.
  pass :
      (r middle back : List A) (x y : A)
      → length r ≡ length back
      → swap
          (length r)
          (length (reverse_aux r (x ∷ (middle ++ (y ∷ back)))) - 1 - length r)
          (reverse_aux r (x ∷ (middle ++ (y ∷ back))))
        ≡ reverse_aux r (y ∷ (middle ++ (x ∷ back)))
  pass r middle back x y f =
      rw
        (
          reverse_aux-eq r (x ∷ (middle ++ (y ∷ back))),
          reverse_aux-eq r (y ∷ (middle ++ (x ∷ back))),
        )
        (swap-ends (reverse r) middle back x y (length r) _ (sym (length-reverse r))
          (rw (length-append, length-append) omega (arith, length-reverse r, f)))

  -- The loop exchanges two parts of the same length, reversed, around what stands between them.
  swaps-reverse_aux :
      (r middle back : List A)
      → length r ≡ length back
      → swaps (length r) (reverse_aux r (middle ++ back)) ≡ reverse_aux back (middle ++ r)
  unfolding swaps
  swaps-reverse_aux [] middle [] e = refl
  swaps-reverse_aux [] middle (y ∷ back) e = absurd (omega (arith, e))
  swaps-reverse_aux (x ∷ r) middle [] e = absurd (omega (arith, e))
  swaps-reverse_aux (x ∷ r) middle (y ∷ back) e =
      let f : length r ≡ length back = omega (arith, e) in
      let ih = swaps-reverse_aux r (y ∷ (middle ++ (x ∷ []))) back f in
      let ih' : swaps (length r) (reverse_aux r (y ∷ (middle ++ (x ∷ back))))
          ≡ reverse_aux back (y ∷ (middle ++ (x ∷ r))) =
        rw (← append_assoc middle (x ∷ []) back, ← append_assoc middle (x ∷ []) r) ih in
      ap (swaps (length r)) (pass r middle back x y f) ∙ ih'

  reverse_short : (m : List A) → length m ≤ 1 → reverse m ≡ m
  reverse_short [] h = refl
  reverse_short (x ∷ []) h = refl
  reverse_short (x ∷ y ∷ m) h = absurd (omega (arith, h))

  reversed_parts :
      (t m b : List A)
      → length t ≡ length b
      → length m ≤ 1
      → swaps (length t) (t ++ (m ++ b)) ≡ reverse (t ++ (m ++ b))
  reversed_parts t m b e h =
      let r : reverse_aux (reverse t) (m ++ b) ≡ t ++ (m ++ b) =
        reverse_aux-eq (reverse t) (m ++ b) ∙ ap (λ u. u ++ (m ++ b)) (reverse-reverse t) in
      let left : swaps (length t) (t ++ (m ++ b)) ≡ reverse_aux b (m ++ reverse t) =
        ap (λ i. swaps i (t ++ (m ++ b))) (sym (length-reverse t))
        ∙ ap (swaps (length (reverse t))) (sym r)
        ∙ swaps-reverse_aux (reverse t) m b (length-reverse t ∙ e) in
      let right : reverse (t ++ (m ++ b)) ≡ reverse_aux b (m ++ reverse t) =
        reverse-append t (m ++ b)
        ∙ ap (λ u. u ++ reverse t) (reverse-append m b)
        ∙ append_assoc (reverse b) (reverse m) (reverse t)
        ∙ ap (λ u. reverse b ++ (u ++ reverse t)) (reverse_short m h)
        ∙ sym (reverse_aux-eq b (m ++ reverse t)) in
      left ∙ sym right

  -- The loop that exchanges the first element with the last one, and so on, from the middle to the
  -- ends, reverses the list.
  pub reversed-reverse : (xs : List A) → reversed xs ≡ reverse xs
  unfolding reversed
  reversed-reverse xs =
      let h = length xs / 2 in
      let t = take h xs in
      let m = take (length xs - 2 * h) (drop h xs) in
      let b = drop (length xs - 2 * h) (drop h xs) in
      let all : t ++ (m ++ b) ≡ xs =
        ap (λ u. t ++ u) (take-append-drop (length xs - 2 * h) (drop h xs))
        ∙ take-append-drop h xs in
      let lt : length t ≡ length xs / 2 = rw length-take omega arith in
      let lb : length b ≡ length xs / 2 = rw (length-drop, length-drop) omega arith in
      let lm : length m ≤ 1 = rw (length-take, length-drop) omega arith in
      let parts = reversed_parts t m b (lt ∙ sym lb) lm in
      ap (λ i. swaps i xs) (sym lt) ∙ ap (swaps (length t)) (sym all) ∙ parts ∙ ap reverse all

-- The atoms of a molecule are the layers of the manifest in the reverse order.
pub build_molecule-reverse :
    {Desc Manifest Image : Type 0} (oci : Engine Desc Manifest Image) (opts : MountOciOpts)
    → build_molecule oci opts
      ≡ and_then
          (lookup_manifest oci opts.tag)
          (λ man. ok (record { atoms = reverse (oci.layers man); config = opts }))
unfolding build_molecule
build_molecule-reverse oci opts =
    ap
      (λ f.
        and_then (lookup_manifest oci opts.tag)
          (λ man. ok (record { atoms = f (oci.layers man); config = opts })))
      (fun_ext reversed-reverse)
