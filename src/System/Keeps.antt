-- ===== src/System/Keeps.antt =====
-- Invariants of the history: what holds after an action however it ends, by one rule for each way
-- to build an action.
use atomfs.Base.{◌≡◌, subst, Bool, true, false, ◌∷◌, if◌then◌else◌}
use atomfs.System.{
  Error, Result, ok, err, panic, Call, History, Kernel, Exec, pure, fail, crash, lift, known, ◌>>=◌,
  continue, attempt, caught, on_failure, failed_then, ignoring, act, act_ignoring, ask_text,
  ask_names, ask_info, ask_number, always,
}

-- `m` keeps `P`, whether it returns, fails or panics.
pub record Keeps {ℓ κ} {A : Type ℓ} (P : History → Type κ) (m : Exec A) : Type κ where
  pub at : (k : Kernel) (h : History) → P h → P (m k h).1

module _ {ℓ κ} {A : Type ℓ} (P : History → Type κ) where
  caught-1 : (r : Result A × History) → P r.1 → P (caught r).1
  caught-1 (ok a, h) p = p
  caught-1 (err x, h) p = p
  caught-1 (panic, h) p = p

  ignoring-1 : (r : Result (Unit {0}) × History) (x : Result A) → P r.1 → P (ignoring r x).1
  ignoring-1 (ok u, h) x p = p
  ignoring-1 (err y, h) x p = p
  ignoring-1 (panic, h) x p = p

module _ {ℓ κ} {A : Type ℓ} {P : History → Type κ} where
  pub Keeps-pure : (a : A) → Keeps P (pure a)
  unfolding pure
  Keeps-pure a = record { at = λ k h p. p }

  pub Keeps-fail : (x : Error) → Keeps P (fail {A = A} x)
  unfolding fail
  Keeps-fail x = record { at = λ k h p. p }

  pub Keeps-crash : Keeps P (crash {A = A})
  unfolding crash
  Keeps-crash = record { at = λ k h p. p }

  pub Keeps-lift : (r : Result A) → Keeps P (lift r)
  unfolding lift
  Keeps-lift r = record { at = λ k h p. p }

  pub Keeps-known : (f : Kernel → A) → Keeps P (known f)
  unfolding known
  Keeps-known f = record { at = λ k h p. p }

  pub Keeps-if : (b : Bool) (m n : Exec A) → Keeps P m → Keeps P n → Keeps P (if b then m else n)
  Keeps-if true m n p q = p
  Keeps-if false m n p q = q

  pub Keeps-attempt : (m : Exec A) → Keeps P m → Keeps P (attempt m)
  unfolding attempt
  Keeps-attempt m p = record { at = λ k h q. caught-1 P (m k h) (p.at k h q) }

  failed_then-1 :
      (d : Exec (Unit {0})) (k : Kernel) (r : Result A × History)
      → Keeps P d
      → P r.1
      → P (failed_then d k r).1
  failed_then-1 d k (ok a, h) q p = p
  failed_then-1 d k (err x, h) q p = ignoring-1 P (d k h) (err x) (q.at k h p)
  failed_then-1 d k (panic, h) q p = ignoring-1 P (d k h) panic (q.at k h p)

  pub Keeps-on_failure :
      (m : Exec A) (d : Exec (Unit {0})) → Keeps P m → Keeps P d → Keeps P (on_failure m d)
  unfolding on_failure
  Keeps-on_failure m d p q = record { at = λ k h i. failed_then-1 d k (m k h) q (p.at k h i) }

  pub Keeps-always :
      (m : Exec A) (d : Exec (Unit {0})) → Keeps P m → Keeps P d → Keeps P (always m d)
  unfolding always
  Keeps-always m d p q = record {
    at = λ k h i. ignoring-1 P (d k (m k h).1) (m k h).0 (q.at k (m k h).1 (p.at k h i));
  }

module _ {ℓ κ ρ} {A : Type ℓ} {B : Type κ} {P : History → Type ρ} where
  continue-1 :
      (f : A → Exec B) (k : Kernel) (r : Result A × History)
      → ((a : A) → Keeps P (f a))
      → P r.1
      → P (continue f k r).1
  continue-1 f k (ok a, h) q p = (q a).at k h p
  continue-1 f k (err x, h) q p = p
  continue-1 f k (panic, h) q p = p

  pub Keeps-bind :
      (m : Exec A) (f : A → Exec B) → Keeps P m → ((a : A) → Keeps P (f a)) → Keeps P (m >>= f)
  unfolding ◌>>=◌
  Keeps-bind m f p q = record { at = λ k h i. continue-1 f k (m k h) q (p.at k h i) }

  continue-value :
      (f : A → Exec B) (a : A) (k : Kernel) (r : Result A × History)
      → r.0 ≡ ok a
      → P r.1
      → Keeps P (f a)
      → P (continue f k r).1
  continue-value f a k (ok b, h) e p q =
      (subst (λ x. Keeps P (f x)) {x = a} {y = b} (cc e) q).at k h p
  continue-value f a k (err x, h) e p q = p
  continue-value f a k (panic, h) e p q = p

  -- Where the first action returns `a`, what follows matters at `a` only.
  pub bind-value :
      (m : Exec A) (f : A → Exec B) (a : A) (k : Kernel) (h : History)
      → (m k h).0 ≡ ok a
      → P (m k h).1
      → Keeps P (f a)
      → P ((m >>= f) k h).1
  unfolding ◌>>=◌
  bind-value m f a k h e p q = continue-value f a k (m k h) e p q

-- A call is harmless to a property that it cannot break.
module _ {κ} {P : History → Type κ} (c : Call) (spares : (h : History) → P h → P (c ∷ h)) where
  pub Keeps-act : Keeps P (act c)
  unfolding act
  Keeps-act = record { at = λ k h p. spares h p }

  pub Keeps-act_ignoring : Keeps P (act_ignoring c)
  unfolding act_ignoring
  Keeps-act_ignoring = record { at = λ k h p. spares h p }

  pub Keeps-ask_text : Keeps P (ask_text c)
  unfolding ask_text
  Keeps-ask_text = record { at = λ k h p. spares h p }

  pub Keeps-ask_names : Keeps P (ask_names c)
  unfolding ask_names
  Keeps-ask_names = record { at = λ k h p. spares h p }

  pub Keeps-ask_info : Keeps P (ask_info c)
  unfolding ask_info
  Keeps-ask_info = record { at = λ k h p. spares h p }

  pub Keeps-ask_number : Keeps P (ask_number c)
  unfolding ask_number
  Keeps-ask_number = record { at = λ k h p. spares h p }

pub ruleset keeps_rules = (
  Keeps-pure, Keeps-fail, Keeps-crash, Keeps-lift, Keeps-known, Keeps-if, Keeps-attempt,
  Keeps-on_failure, Keeps-always, Keeps-bind,
)
