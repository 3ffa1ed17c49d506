-- ===== src/Extract/Race/Safety.antt =====
-- What holds however the goroutines are interleaved.
use atomfs.Base.{ℕ, ◌≡◌, Bool-cases, ==_iff, subst, Bool, true, false, ◌==◌, inl, inr}
use atomfs.Extract.Race.{Place, selecting, crashed, System, Reach}
use atomfs.Extract.Race.Invariant.{holds, IsPlaced, Inv}
use atomfs.Extract.Race.Keep.{Reach-Inv}

IsPlaced-at : {s : System} → Inv s → (i : ℕ) (p : Place) → s.place i ≡ p → IsPlaced s.shared p
IsPlaced-at {s} v i p e = subst (λ x. IsPlaced s.shared x) e (v.placed i)

holds_at :
    (s : System) (i : ℕ) {p : Place} → s.place i ≡ p → holds p ≡ true → holds (s.place i) ≡ true
holds_at s i e h = cc (e, h)

-- Two goroutines are never in the loop over the extractors at a time, and one that is in it finds no
-- extractor chosen and the policy not initialized.
pub single_selection :
    {s : System} (r : Reach s) (i j : ℕ) (a b : Bool)
    → s.place i ≡ selecting a
    → s.place j ≡ selecting b
    → (i ≡ j) × (s.shared.initialized ≡ false) × (s.shared.chosen ≡ false)
single_selection {s} r i j a b p q =
    let v = Reach-Inv r in
    let x = IsPlaced-at v i _ p in
    let y = IsPlaced-at v j _ q in
    (
      elim (Bool-cases (i == j)) [
        | inl e ↦ (==_iff i j).0 e
        | inr e ↦ absurd (cc (v.alone i j (holds_at s i p x.0) e, holds_at s j q y.0))
      ],
      x.1,
      x.2,
    )

-- A nil `Extractor` is called only if the initializer has returned early, without a directory.
pub no_nil : {s : System} (r : Reach s) (i : ℕ) → s.place i ≡ crashed → s.shared.refused ≡ true
no_nil {s} r i p = (IsPlaced-at (Reach-Inv r) i _ p).1
