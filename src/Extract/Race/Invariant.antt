-- ===== src/Extract/Race/Invariant.antt =====
-- What holds between two steps.
use atomfs.Base.{ℕ, ◌≡◌, refl, Bool-cases, ==_iff, Bool, true, false, ◌||◌, ◌==◌, arith, inl, inr}
use atomfs.Extract.Race.{
  Shared, Place, entry, waiting, checking, working, using, selecting, leaving, unlocking, crashed,
  finished, System, update, fresh,
}

-- Does the goroutine have the mutex?
abbrev pub holds : Place → Bool
holds checking = true
holds (working d) = d
holds (using d) = d
holds (selecting d) = d
holds (leaving d) = d
holds unlocking = true
holds _ = false

-- What each place says of the shared state.
abbrev pub IsPlaced : Shared → Place → Type 0
IsPlaced s checking = s.initialized ≡ false → s.chosen ≡ false
IsPlaced s (working true) = (s.initialized ≡ false) × (s.chosen ≡ false)
IsPlaced s (working false) = s.initialized ≡ true
IsPlaced s (using d) = (d ≡ false) × (s.initialized ≡ true)
IsPlaced s (selecting d) = (d ≡ true) × (s.initialized ≡ false) × (s.chosen ≡ false)
IsPlaced s (leaving true) = (s.initialized ≡ false) × (s.chosen || s.refused ≡ true)
IsPlaced s (leaving false) = s.initialized ≡ true
IsPlaced s unlocking = s.initialized ≡ true
IsPlaced s crashed = (s.initialized ≡ true) × (s.refused ≡ true)
IsPlaced s _ = Unit {0}

pub record Inv (s : System) : Type 0 where
  pub held : (i : ℕ) → holds (s.place i) ≡ true → s.shared.locked ≡ true
  pub alone : (i j : ℕ) → holds (s.place i) ≡ true → i == j ≡ false → holds (s.place j) ≡ false
  pub owned : s.shared.locked ≡ true → (i : ℕ) × (holds (s.place i) ≡ true)
  pub settled : s.shared.initialized ≡ true → s.shared.chosen || s.shared.refused ≡ true
  pub clean : s.shared.locked ≡ false → s.shared.initialized ≡ false → s.shared.chosen ≡ false
  pub placed : (i : ℕ) → IsPlaced s.shared (s.place i)

pub fresh-Inv : Inv fresh
fresh-Inv = record {
  held = λ i e. absurd (cc e);
  alone = λ i j e f. refl;
  owned = λ e. absurd (cc e);
  settled = λ e. absurd (cc e);
  clean = λ _ _. refl;
  placed = λ i. tt;
}

-- A goroutine without the mutex stands where it did, when the shared flags only rise.
pub IsPlaced-rise :
    (s t : Shared) (p : Place)
    → holds p ≡ false
    → (s.initialized ≡ true → t.initialized ≡ true)
    → (s.refused ≡ true → t.refused ≡ true)
    → IsPlaced s p
    → IsPlaced t p
IsPlaced-rise s t entry _ _ _ _ = tt
IsPlaced-rise s t waiting _ _ _ _ = tt
IsPlaced-rise s t checking h _ _ _ = absurd (cc h)
IsPlaced-rise s t (working true) h _ _ _ = absurd (cc h)
IsPlaced-rise s t (working false) _ i _ e = i e
IsPlaced-rise s t (using d) _ i _ e = (e.0, i e.1)
IsPlaced-rise s t (selecting true) h _ _ _ = absurd (cc h)
IsPlaced-rise s t (selecting false) _ _ _ e = absurd (cc e.0)
IsPlaced-rise s t (leaving true) h _ _ _ = absurd (cc h)
IsPlaced-rise s t (leaving false) _ i _ e = i e
IsPlaced-rise s t unlocking h _ _ _ = absurd (cc h)
IsPlaced-rise s t crashed _ i r e = (i e.0, r e.1)
IsPlaced-rise s t finished _ _ _ _ = tt

pub update-all :
    (P : ℕ → Place → Type 0) (f : ℕ → Place) (i : ℕ) (p : Place)
    → ((j : ℕ) → i == j ≡ true → P j p)
    → ((j : ℕ) → i == j ≡ false → P j (f j))
    → (j : ℕ) → P j (update f i p j)
update-all P f i p h g j = elim (Bool-cases (i == j)) [
  | inl e ↦ rw e (h j e)
  | inr e ↦ rw e (g j e)
]

pub update-same : (f : ℕ → Place) (i : ℕ) (p : Place) → update f i p i ≡ p
update-same f i p = rw ((==_iff i i).1 refl) refl

module _ {s : System} (v : Inv s) (i : ℕ) (t : Shared) (p : Place)
    (held : (j : ℕ) → i == j ≡ false → holds (s.place j) ≡ true → t.locked ≡ true)
    (mine : holds p ≡ true → t.locked ≡ true)
    (alone : holds p ≡ true → (j : ℕ) → i == j ≡ false → holds (s.place j) ≡ false)
    (owned : t.locked ≡ true → (j : ℕ) × (holds (update s.place i p j) ≡ true))
    (settled : t.initialized ≡ true → t.chosen || t.refused ≡ true)
    (clean : t.locked ≡ false → t.initialized ≡ false → t.chosen ≡ false)
    (placed : (j : ℕ) → i == j ≡ false → IsPlaced t (s.place j)) (here : IsPlaced t p) where
  move-alone :
      (a b : ℕ)
      → holds (update s.place i p a) ≡ true
      → a == b ≡ false
      → holds (update s.place i p b) ≡ false
  move-alone a b h n =
      update-all (λ a x. holds x ≡ true → a == b ≡ false → holds (update s.place i p b) ≡ false)
        s.place i p
        (λ a e h n.
          update-all (λ b x. a == b ≡ false → holds x ≡ false) s.place i p
            (λ b e' n. absurd (ground arith)) (λ b e' n. alone h b e') b n)
        (λ a e h n.
          update-all (λ b x. a == b ≡ false → holds x ≡ false) s.place i p
            (λ b e' n. elim (Bool-cases (holds p)) [
              | inl w ↦ absurd (cc (alone w a e, h))
              | inr w ↦ w
            ])
            (λ b e' n. v.alone a b h n) b n)
        a h n

  pub move-Inv : Inv (record { shared = t; place = update s.place i p })
  move-Inv = record {
    held = update-all (λ _ x. holds x ≡ true → t.locked ≡ true) s.place i p (λ _ _. mine) held;
    alone = move-alone;
    owned = owned;
    settled = settled;
    clean = clean;
    placed = update-all (λ _ x. IsPlaced t x) s.place i p (λ _ _. here) placed;
  }
