-- ===== src/System/Attempt.antt =====
-- What an error that the code looks at was before.
use atomfs.Base.{◌≡◌, refl, subst}
use atomfs.System.{
  Answer, answer, failure, Result, ok, err, panic, History, Kernel, Exec, attempt, caught,
}
use atomfs.System.Trace.{Ends}

-- The result behind an answer.
unfoldable pub outcome {ℓ} : {A : Type ℓ} → Answer A → Result A
outcome (answer a) = ok a
outcome (failure x) = err x

module _ {ℓ} {A : Type ℓ} where
  caught-outcome : (r : Result A × History) (x : Answer A) → (caught r).0 ≡ ok x → r.0 ≡ outcome x
  unfolding outcome
  caught-outcome (ok a, h) x e = subst (λ y. ok a ≡ outcome y) (same x e) refl
    where
      same : (y : Answer A) → Path (Result (Answer A)) (ok (answer a)) (ok y) → answer a ≡ y
      same y f = cc f
  caught-outcome (err x, h) y e = subst (λ z. err x ≡ outcome z) (same y e) refl
    where
      same : (y : Answer A) → Path (Result (Answer A)) (ok (failure x)) (ok y) → failure x ≡ y
      same y f = cc f
  caught-outcome (panic, h) x e = absurd (cc e)

  caught-trace : (r : Result A × History) → (caught r).1 ≡ r.1
  caught-trace (ok a, h) = refl
  caught-trace (err x, h) = refl
  caught-trace (panic, h) = refl

  pub attempt-outcome :
      (m : Exec A) (k : Kernel) (h : History)
      → Ends (attempt m) k h (λ x h'. (h' ≡ (m k h).1) × ((m k h).0 ≡ outcome x))
  unfolding attempt
  attempt-outcome m k h = record { at = λ x e. (caught-trace (m k h), caught-outcome (m k h) x e) }
