-- ===== src/Extract/Race/Bounds.antt =====
-- How many steps the goroutines take.
use atomfs.Base.{
  ℕ, zero, suc, ◌+◌, ◌*◌, ◌<◌, ◌≤◌, ◌≡◌, refl, Bool-cases, ==_iff, false, ◌==◌, arith, inl, inr,
  subst,
}
use atomfs.Extract.Race.{
  Shared, Place, entry, waiting, checking, working, using, selecting, leaving, unlocking, crashed,
  finished, Move, seen, unseen, lock, beaten, first, refuse, use_it, select, choose, mount_it,
  crash_it, publish, unlock, back, System, update, fresh,
}

-- The steps that a goroutine has before it, at most.
abbrev pub ahead : Place → ℕ
ahead entry = 7
ahead waiting = 6
ahead checking = 5
ahead (working d) = 4
ahead (using d) = 3
ahead (selecting d) = 3
ahead (leaving d) = 2
ahead unlocking = 1
ahead crashed = 0
ahead finished = 0

-- The goroutines with a number below `n` take `m` steps, in any interleaving.
pub data Run (n : ℕ) (s : System) : ℕ → System → Type 0 where
  still : Run n s 0 s
  more :
      {m : ℕ} {t : System} (r : Run n s m t) (i : ℕ) (l : i < n) {u : Shared} {p : Place}
      → Move t.shared (t.place i) u p
      → Run n s (suc m) (record { shared = u; place = update t.place i p })

pub Move-ahead : {s t : Shared} {q p : Place} → Move s q t p → suc (ahead p) ≤ ahead q
Move-ahead (seen e) = omega arith
Move-ahead (unseen e) = omega arith
Move-ahead (lock e) = omega arith
Move-ahead (beaten e) = omega arith
Move-ahead (first e) = omega arith
Move-ahead refuse = omega arith
Move-ahead (use_it e) = omega arith
Move-ahead (select e) = omega arith
Move-ahead choose = omega arith
Move-ahead (mount_it e) = omega arith
Move-ahead (crash_it e) = omega arith
Move-ahead (publish e) = omega arith
Move-ahead unlock = omega arith
Move-ahead (back e) = omega arith

total : ℕ → (ℕ → Place) → ℕ
total zero f = 0
total (suc n) f = ahead (f n) + total n f

module _ (f : ℕ → Place) (i : ℕ) (p : Place) where
  total-update_above : (n : ℕ) → n ≤ i → total n (update f i p) ≡ total n f
  unfolding total
  total-update_above zero l = refl
  total-update_above (suc n) l =
      let other : i == n ≡ false = ground (arith, l) in
      let rest : total n (update f i p) ≡ total n f = total-update_above n (omega (arith, l)) in
      rw (other, rest) refl

  total-update :
      (n : ℕ) → i < n → suc (ahead p) ≤ ahead (f i) → suc (total n (update f i p)) ≤ total n f
  unfolding total
  total-update zero l d = absurd (omega (arith, l))
  total-update (suc n) l d = elim (Bool-cases (i == n)) [
    | inl e ↦
        let rest : total n (update f i p) ≡ total n f = total-update_above n (ground (arith, e)) in
        let here : suc (ahead p) ≤ ahead (f n) =
          subst (λ j. suc (ahead p) ≤ ahead (f j)) ((==_iff i n).0 e) d in
        rw (e, rest) (omega (arith, here))
    | inr e ↦ let rest = total-update n (ground (arith, e, l)) d in rw e (omega (arith, rest))
  ]

total-fresh : (n : ℕ) → total n fresh.place ≡ 7 * n
unfolding total
total-fresh zero = refl
total-fresh (suc n) = omega (arith, total-fresh n)

Run-total :
    {n : ℕ} {s : System} {m : ℕ} {t : System} → Run n s m t → m + total n t.place ≤ total n s.place
Run-total still = omega arith
Run-total {n} (more {t = t} r i l {p = p} e) =
    omega (arith, Run-total r, total-update t.place i p n l (Move-ahead e))

-- In every interleaving `n` goroutines with a new policy take at most `7 * n` steps together.
Run-bounded : {n m : ℕ} {t : System} → Run n fresh m t → m ≤ 7 * n
Run-bounded {n} r = omega (arith, Run-total r, total-fresh n)
