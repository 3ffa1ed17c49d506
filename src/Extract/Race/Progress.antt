-- ===== src/Extract/Race/Progress.antt =====
-- Every call comes to an end: the goroutines take boundedly many steps, and stop only where each has
-- returned or crashed.
use atomfs.Base.{
  ℕ, ◌<◌, ◌≤◌, ◌≡◌, ◌⊎◌, refl, Bool-cases, subst, sym, true, false, ltb, inl, inr, arith,
}
use atomfs.Extract.Race.{
  Shared, Place, entry, waiting, checking, working, using, selecting, leaving, unlocking, crashed,
  finished, Move, seen, unseen, lock, beaten, first, refuse, choose, mount_it, crash_it, publish,
  unlock, back, System, move, Reach, start, later, fresh,
}
use atomfs.Extract.Race.Invariant.{holds, Inv, update-all}
use atomfs.Extract.Race.Keep.{Reach-Inv}
use atomfs.Extract.Race.Safety.{no_nil}
use atomfs.Extract.Race.Bounds.{Run, still, more}

abbrev pub CanMove : System → ℕ → Type 0
CanMove s i = (t : Shared) × (p : Place) × Move s.shared (s.place i) t p

-- The goroutine itself, or the one with the mutex.
abbrev Mover : System → ℕ → Type 0
Mover s i = (j : ℕ) × ((j ≡ i) ⊎ (holds (s.place j) ≡ true)) × CanMove s j

module _ (s : System) (i : ℕ) where
  goes : {q : Place} (t : Shared) (p : Place) → s.place i ≡ q → Move s.shared q t p → CanMove s i
  goes t p e m = (t, p, subst (λ x. Move s.shared x t p) (sym e) m)

  -- A goroutine with the mutex can move.
  holder_goes : (q : Place) → s.place i ≡ q → holds q ≡ true → CanMove s i
  holder_goes entry e h = absurd (cc h)
  holder_goes waiting e h = absurd (cc h)
  holder_goes checking e h = elim (Bool-cases s.shared.initialized) [
    | inl w ↦ goes _ _ e (beaten w)
    | inr w ↦ goes _ _ e (first w)
  ]
  holder_goes (working d) e h = goes _ _ e refuse
  holder_goes (using d) e h = elim (Bool-cases s.shared.chosen) [
    | inl w ↦ goes _ _ e (mount_it w)
    | inr w ↦ goes _ _ e (crash_it w)
  ]
  holder_goes (selecting d) e h = goes _ _ e choose
  holder_goes (leaving d) e h = goes _ _ e (publish h)
  holder_goes unlocking e h = goes _ _ e unlock
  holder_goes crashed e h = absurd (cc h)
  holder_goes finished e h = absurd (cc h)

module _ {s : System} (v : Inv s) (i : ℕ) where
  mine : CanMove s i → Mover s i
  mine m = (i, inl refl, m)

  -- A goroutine that waits for the mutex can take it, or the one that has it can move.
  waiter_goes : s.place i ≡ waiting → Mover s i
  waiter_goes e = elim (Bool-cases s.shared.locked) [
    | inl w ↦ ((v.owned w).0, inr (v.owned w).1, holder_goes s (v.owned w).0 _ refl (v.owned w).1)
    | inr w ↦ mine (goes s i _ _ e (lock w))
  ]

  place_goes : (q : Place) → s.place i ≡ q → (q ≡ finished → ⊥) → (q ≡ crashed → ⊥) → Mover s i
  place_goes entry e _ _ = elim (Bool-cases s.shared.initialized) [
    | inl w ↦ mine (goes s i _ _ e (seen w))
    | inr w ↦ mine (goes s i _ _ e (unseen w))
  ]
  place_goes waiting e _ _ = waiter_goes e
  place_goes checking e _ _ = mine (holder_goes s i _ e refl)
  place_goes (working d) e _ _ = mine (goes s i _ _ e refuse)
  place_goes (using d) e _ _ = elim (Bool-cases s.shared.chosen) [
    | inl w ↦ mine (goes s i _ _ e (mount_it w))
    | inr w ↦ mine (goes s i _ _ e (crash_it w))
  ]
  place_goes (selecting d) e _ _ = mine (goes s i _ _ e choose)
  place_goes (leaving true) e _ _ = mine (goes s i _ _ e (publish refl))
  place_goes (leaving false) e _ _ = mine (goes s i _ _ e (back refl))
  place_goes unlocking e _ _ = mine (goes s i _ _ e unlock)
  place_goes crashed e _ n = absurd (n refl)
  place_goes finished e n _ = absurd (n refl)

Run-Reach : {n : ℕ} {m : ℕ} {t : System} → Run n fresh m t → Reach t
Run-Reach still = start
Run-Reach (more r i l e) = later (Run-Reach r) (move i e)

-- A goroutine that has not moved is at its entry.
Run-entry : {n : ℕ} {m : ℕ} {t : System} → Run n fresh m t → (j : ℕ) → n ≤ j → t.place j ≡ entry
Run-entry still j l = refl
Run-entry {n} (more {t = t} r i l {p = p} e) j k =
    update-all (λ j x. n ≤ j → x ≡ entry) t.place i p (λ j f k. absurd (ground (arith, f, k, l)))
      (λ j f k. Run-entry r j k) j k

ended : (p : Place) → ((p ≡ finished → ⊥) → (p ≡ crashed → ⊥) → ⊥) → (p ≡ finished) ⊎ (p ≡ crashed)
ended finished h = inl refl
ended crashed h = inr refl
ended entry h = absurd (h (λ e. cc e) (λ e. cc e))
ended waiting h = absurd (h (λ e. cc e) (λ e. cc e))
ended checking h = absurd (h (λ e. cc e) (λ e. cc e))
ended (working d) h = absurd (h (λ e. cc e) (λ e. cc e))
ended (using d) h = absurd (h (λ e. cc e) (λ e. cc e))
ended (selecting d) h = absurd (h (λ e. cc e) (λ e. cc e))
ended (leaving d) h = absurd (h (λ e. cc e) (λ e. cc e))
ended unlocking h = absurd (h (λ e. cc e) (λ e. cc e))

holds_entry : holds entry ≡ false
holds_entry = refl

-- The one that can move is among the goroutines of the run.
Mover-below :
    {n : ℕ} {m : ℕ} {t : System} → Run n fresh m t → (i : ℕ) → i < n → (w : Mover t i) → w.0 < n
Mover-below {n} r i l (j, inl e, c) = omega (arith, e, l)
Mover-below {n} r i l (j, inr h, c) = elim (Bool-cases (ltb j n)) [
  | inl e ↦ ground (arith, e)
  | inr e ↦ absurd (cc (h, Run-entry r j (ground (arith, e)), holds_entry))
]

-- When none of `n` goroutines with a new policy can take another step, each has returned, or has
-- called a nil `Extractor` after the initializer returned early.
pub Run-completes :
    {n : ℕ} {m : ℕ} {t : System} (r : Run n fresh m t)
    → ((j : ℕ) → j < n → CanMove t j → ⊥)
    → (i : ℕ) → i < n
    → (t.place i ≡ finished) ⊎ ((t.place i ≡ crashed) × (t.shared.refused ≡ true))
Run-completes {t = t} r stuck i l =
    elim (ended (t.place i) λ f c.
      let w = place_goes (Reach-Inv (Run-Reach r)) i (t.place i) refl f c in
      stuck w.0 (Mover-below r i l w) w.2) [
        | inl e ↦ inl e
        | inr e ↦ inr (e, no_nil (Run-Reach r) i e)
      ]
