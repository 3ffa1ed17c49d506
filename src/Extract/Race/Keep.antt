-- ===== src/Extract/Race/Keep.antt =====
-- Every step of a goroutine keeps the invariant.
use atomfs.Base.{ℕ, ◌≡◌, refl, Bool-cases, ==_iff, Bool, true, false, ◌||◌, ◌==◌, inl, inr}
use atomfs.Extract.Race.{
  Shared, Place, waiting, checking, working, using, selecting, leaving, unlocking, crashed,
  finished, Move, seen, unseen, lock, beaten, first, refuse, use_it, select, choose, mount_it,
  crash_it, publish, unlock, back, System, update, Step, move, Reach, start, later,
}
use atomfs.Extract.Race.Invariant.{
  holds, IsPlaced, IsPlaced-rise, update-all, update-same, Inv, fresh-Inv, move-Inv,
}

pub or_true : (c : Bool) → c || true ≡ true
or_true true = refl
or_true false = refl

refused_of : {c r : Bool} → c ≡ false → c || r ≡ true → r ≡ true
refused_of {c = true} e h = absurd (cc e)
refused_of {c = false} e h = h

module _ {s : System} (v : Inv s) (i : ℕ) where
  still_owned :
      (p : Place)
      → holds p ≡ holds (s.place i)
      → ((j : ℕ) × (holds (s.place j) ≡ true))
      → (j : ℕ) × (holds (update s.place i p j) ≡ true)
  still_owned p h (j, w) = (
    j,
    update-all (λ j x. holds (s.place j) ≡ true → holds x ≡ true) s.place i p
        (λ j e y. cc (h, y, (==_iff i j).0 e)) (λ _ _ y. y) j w,
  )

  -- The goroutine moves and leaves the shared state as it is.
  stay-Inv :
      (p : Place)
      → holds p ≡ holds (s.place i)
      → IsPlaced s.shared p
      → Inv (record { shared = s.shared; place = update s.place i p })
  stay-Inv p h q =
      move-Inv v i s.shared p (λ j _. v.held j) (λ e. v.held i (cc (h, e)))
        (λ e j n. v.alone i j (cc (h, e)) n) (λ l. still_owned p h (v.owned l)) v.settled v.clean
        (λ j _. v.placed j) q

  -- It changes the shared state, and nobody else has the mutex.
  change-Inv :
      (p : Place) (t : Shared)
      → ((j : ℕ) → i == j ≡ false → holds (s.place j) ≡ false)
      → (s.shared.initialized ≡ true → t.initialized ≡ true)
      → (s.shared.refused ≡ true → t.refused ≡ true)
      → t.locked ≡ holds p
      → (t.initialized ≡ true → t.chosen || t.refused ≡ true)
      → (t.locked ≡ false → t.initialized ≡ false → t.chosen ≡ false)
      → IsPlaced t p
      → Inv (record { shared = t; place = update s.place i p })
  change-Inv p t none_else up_i up_r h settled clean q =
      move-Inv v i t p (λ j n e. absurd (cc (none_else j n, e))) (λ e. cc (h, e)) (λ _. none_else)
        (λ l. (i, cc (update-same s.place i p, h, l))) settled clean
        (λ j n. IsPlaced-rise s.shared t (s.place j) (none_else j n) up_i up_r (v.placed j)) q

  -- While the mutex is free, nobody has it.
  nobody : s.shared.locked ≡ false → (j : ℕ) → holds (s.place j) ≡ false
  nobody e j = elim (Bool-cases (holds (s.place j))) [
    | inl h ↦ absurd (cc (v.held j h, e))
    | inr h ↦ h
  ]

  Move-Inv :
      (q : Place) (t : Shared) (p : Place)
      → holds q ≡ holds (s.place i)
      → IsPlaced s.shared q
      → Move s.shared q t p
      → Inv (record { shared = t; place = update s.place i p })
  Move-Inv _ _ _ h q (seen k) = stay-Inv (working false) h k
  Move-Inv _ _ _ h q (unseen k) = stay-Inv waiting h tt
  Move-Inv _ _ _ h q (lock k) =
      change-Inv checking _ (λ j _. nobody k j) (λ x. x) (λ x. x) refl v.settled
        (λ x. absurd (cc x)) (v.clean k)
  Move-Inv _ _ _ h q (beaten k) =
      change-Inv (working false) _ (λ j n. v.alone i j (cc h) n) (λ x. x) (λ x. x) refl v.settled
        (λ _ x. absurd (cc (x, k))) k
  Move-Inv _ _ _ h q (first k) = stay-Inv (working true) h (k, q k)
  Move-Inv _ _ _ h q (refuse {d = true}) =
      change-Inv (leaving true) _ (λ j n. v.alone i j (cc h) n) (λ x. x) (λ x. refl)
        (v.held i (cc h)) (λ _. or_true s.shared.chosen) (λ _ _. q.1) (q.0, or_true s.shared.chosen)
  Move-Inv _ _ _ h q (refuse {d = false}) = stay-Inv (leaving false) h q
  Move-Inv _ _ _ h q (use_it {d = true} k) = absurd (cc (q.0, k))
  Move-Inv _ _ _ h q (use_it {d = false} k) = stay-Inv (using false) h (refl, k)
  Move-Inv _ _ _ h q (select {d = true} k) = stay-Inv (selecting true) h (refl, q.0, q.1)
  Move-Inv _ _ _ h q (select {d = false} k) = absurd (cc (q, k))
  Move-Inv _ _ _ h q (choose {d = true}) =
      change-Inv (leaving true) _ (λ j n. v.alone i j (cc h) n) (λ x. x) (λ x. x) (v.held i (cc h))
        (λ _. refl) (λ x. absurd (cc (x, v.held i (cc h)))) (q.1, refl)
  Move-Inv _ _ _ h q (choose {d = false}) = absurd (cc q.0)
  Move-Inv _ _ _ h q (mount_it {d = true} k) = absurd (cc q.0)
  Move-Inv _ _ _ h q (mount_it {d = false} k) = stay-Inv (leaving false) h q.1
  Move-Inv _ _ _ h q (crash_it {d = d} k) =
      stay-Inv crashed (cc (h, q.0)) (q.1, refused_of k (v.settled q.1))
  Move-Inv _ _ _ h q (publish {d = true} k) =
      change-Inv unlocking _ (λ j n. v.alone i j (cc h) n) (λ _. refl) (λ x. x) (v.held i (cc h))
        (λ _. q.1) (λ _ x. absurd (cc x)) refl
  Move-Inv _ _ _ h q (publish {d = false} k) = absurd (cc k)
  Move-Inv _ _ _ h q unlock =
      change-Inv finished _ (λ j n. v.alone i j (cc h) n) (λ x. x) (λ x. x) refl v.settled
        (λ _ x. absurd (cc (x, q))) tt
  Move-Inv _ _ _ h q (back {d = true} k) = absurd (cc k)
  Move-Inv _ _ _ h q (back {d = false} k) = stay-Inv finished h tt

pub Step-Inv : {s t : System} → Inv s → Step s t → Inv t
Step-Inv v (move i m) = Move-Inv v i _ _ _ refl (v.placed i) m

pub Reach-Inv : {s : System} → Reach s → Inv s
Reach-Inv start = fresh-Inv
Reach-Inv (later r st) = Step-Inv (Reach-Inv r) st
