-- ===== src/System/Trace.antt =====
-- Postconditions: what a run that succeeds has returned and left in the history, with a rule for
-- each way to build an action.
use atomfs.Base.{◌≡◌, refl, sym, ap, subst, ◌∙◌, ◌∷◌}
use atomfs.System.Keeps.{Keeps}
use atomfs.System.{
  Error, Answer, answer, failure, Result, ok, err, panic, Call, History, Kernel, Exec, to_result,
  pure, fail, crash, lift, ◌>>=◌, continue, attempt, caught, on_failure, failed_then, ignoring, act,
  ask_text, ask_number, always, act_ignoring,
}

-- A run of `m` from `h` that returns a value ends as `Q` says.
pub record Ends {ℓ κ} {A : Type ℓ} (m : Exec A) (k : Kernel) (h : History)
    (Q : A → History → Type κ) : Type (ℓ ⊔ κ) where
  pub at : (a : A) → (m k h).0 ≡ ok a → Q a (m k h).1

abbrev value_or {ℓ} : {A : Type ℓ} → A → Result A → A
value_or d (ok a) = a
value_or d _ = d

abbrev answer_or {ℓ} : {A : Type ℓ} → A → Answer A → A
answer_or d (answer a) = a
answer_or d (failure e) = d

answer-ok {ℓ} : {A : Type ℓ} (x : Answer A) (a : A) → to_result x ≡ ok a → x ≡ answer a
answer-ok (answer b) a e = ap answer (ap (value_or b) e)
answer-ok (failure x) a e = absurd (cc e)

module _ {ℓ} {A : Type ℓ} (k : Kernel) (d : Exec (Unit {0})) (a : A) where
  ignoring-ok :
      (r : Result (Unit {0}) × History) (x : Result A) → (ignoring r x).0 ≡ ok a → x ≡ ok a
  ignoring-ok (ok u, h) x e = e
  ignoring-ok (err y, h) x e = e
  ignoring-ok (panic, h) x e = absurd (cc e)

  failed_then-ok : (r : Result A × History) → (failed_then d k r).0 ≡ ok a → failed_then d k r ≡ r
  failed_then-ok (ok b, h) e = refl
  failed_then-ok (err x, h) e = absurd (cc (ignoring-ok (d k h) (err x) e))
  failed_then-ok (panic, h) e = absurd (cc (ignoring-ok (d k h) panic e))

module _ {ℓ κ} {A : Type ℓ} {k : Kernel} {h : History} {Q : A → History → Type κ} where
  pub Ends-pure : (a : A) → Q a h → Ends (pure a) k h Q
  unfolding pure
  Ends-pure a q = record { at = λ b e. subst (λ x. Q x h) (ap (value_or a) e) q }

  pub Ends-mono {ρ} :
      {R : A → History → Type ρ} (m : Exec A)
      → Ends m k h R
      → ((a : A) (h' : History) → R a h' → Q a h')
      → Ends m k h Q
  Ends-mono m p q = record { at = λ a e. q a (m k h).1 (p.at a e) }

  pub Ends-fail : (x : Error) → Ends (fail x) k h Q
  unfolding fail
  Ends-fail x = record { at = λ b e. absurd (cc e) }

  pub Ends-crash : Ends crash k h Q
  unfolding crash
  Ends-crash = record { at = λ b e. absurd (cc e) }

  pub Ends-lift : (r : Result A) → ((a : A) → r ≡ ok a → Q a h) → Ends (lift r) k h Q
  unfolding lift
  Ends-lift r q = record { at = q }

  -- Where the guarded action succeeds, what undoes it has not run.
  pub Ends-on_failure :
      (m : Exec A) (d : Exec (Unit {0})) → Ends m k h Q → Ends (on_failure m d) k h Q
  unfolding on_failure
  Ends-on_failure m d p = record {
    at = λ a e.
        let same = failed_then-ok k d a (m k h) e in
        rw same (p.at a (ap (λ (r : Result A × History). r.0) (sym same) ∙ e));
  }

caught-trace {ℓ} : {A : Type ℓ} (r : Result A × History) → (caught r).1 ≡ r.1
caught-trace (ok a, h) = refl
caught-trace (err e, h) = refl
caught-trace (panic, h) = refl

module _ {ℓ κ} {A : Type ℓ} (Q : A → History → Type κ) where
  caught-answer :
      (r : Result A × History)
      → ((a : A) → r.0 ≡ ok a → Q a r.1)
      → (x : Answer A) → (caught r).0 ≡ ok x
      → (a : A) → x ≡ answer a
      → Q a (caught r).1
  caught-answer (ok b, h) q x e a f =
      q a (ap ok (ap (answer_or b) (ap (value_or (answer b)) e ∙ f)))
  caught-answer (err y, h) q x e a f = absurd (cc (ap (value_or (failure y)) e ∙ f))
  caught-answer (panic, h) q x e a f = absurd (cc e)

module _ {ℓ κ} {A : Type ℓ} {Q : A → History → Type κ} where
  -- The error as a value: what a success promises, it promises of an answer.
  pub Ends-attempt :
      {k : Kernel} {h : History} (m : Exec A)
      → Ends m k h Q
      → Ends (attempt m) k h (λ x h'. (a : A) → x ≡ answer a → Q a h')
  unfolding attempt
  Ends-attempt {k} {h} m p = record { at = λ x e. caught-answer Q (m k h) p.at x e }

  -- The same, with the calls that the action has made.
  pub Ends-attempt_trace :
      {k : Kernel} {h : History} (m : Exec A)
      → Ends m k h Q
      → Ends (attempt m) k h (λ x h'. (h' ≡ (m k h).1) × ((a : A) → x ≡ answer a → Q a h'))
  unfolding attempt
  Ends-attempt_trace {k} {h} m p = record {
    at = λ x e. (caught-trace (m k h), caught-answer Q (m k h) p.at x e);
  }

module _ {ℓ κ} {A : Type ℓ} {k : Kernel} {h : History} {Q : A → History → Type κ} where
  -- A deferred call whose error is dropped comes last.
  pub Ends-always :
      (m : Exec A) (c : Call)
      → Ends m k h (λ a h'. Q a (c ∷ h'))
      → Ends (always m (act_ignoring c)) k h Q
  unfolding always act_ignoring
  Ends-always m c p = record { at = λ a e. p.at a e }

module _ {ℓ κ} {A : Type ℓ} {k : Kernel} {h : History} where
  -- What is said of the value alone, a deferred action leaves true.
  pub Ends-always_value :
      {Q : A → Type κ} (m : Exec A) (d : Exec (Unit {0}))
      → Ends m k h (λ a _. Q a)
      → Ends (always m d) k h (λ a _. Q a)
  unfolding always
  Ends-always_value m d p = record {
    at = λ a e. p.at a (ignoring-ok k d a (d k (m k h).1) (m k h).0 e);
  }

module _ {ℓ} {A : Type ℓ} {k : Kernel} {h : History} where
  -- A value is the one that the run has returned.
  pub Ends-itself : (m : Exec A) → Ends m k h (λ a _. (m k h).0 ≡ ok a)
  Ends-itself m = record { at = λ a e. e }

module _ {ℓ κ ι} {A : Type ℓ} {B : Type κ} {k : Kernel} {Q : B → History → Type ι} where
  continue-at :
      (f : A → Exec B) (r : Result A × History)
      → ((a : A) → r.0 ≡ ok a → Ends (f a) k r.1 Q)
      → (b : B) → (continue f k r).0 ≡ ok b
      → Q b (continue f k r).1
  continue-at f (ok a, h₁) p b e = (p a refl).at b e
  continue-at f (err x, h₁) p b e = absurd (cc e)
  continue-at f (panic, h₁) p b e = absurd (cc e)

module _ {ℓ κ ι ρ} {A : Type ℓ} {B : Type κ} {k : Kernel} {h : History}
    {Q : B → History → Type ι} where
  -- A sequence: the second step starts where the first one ends.
  pub Ends-bind :
      (R : A → History → Type ρ) (m : Exec A) (f : A → Exec B)
      → Ends m k h R
      → ((a : A) (h₁ : History) → R a h₁ → Ends (f a) k h₁ Q)
      → Ends (m >>= f) k h Q
  unfolding ◌>>=◌
  Ends-bind R m f p q = record { at = continue-at f (m k h) (λ a e. q a (m k h).1 (p.at a e)) }

module _ {ℓ κ ρ} {A : Type ℓ} {B : Type κ} {k : Kernel} {h : History}
    {Q : B → History → Type ρ} where
  -- A sequence whose first step does not matter.
  pub Ends-after :
      (m : Exec A) (f : A → Exec B)
      → ((a : A) (h₁ : History) → Ends (f a) k h₁ Q)
      → Ends (m >>= f) k h Q
  unfolding ◌>>=◌
  Ends-after m f q = record { at = continue-at f (m k h) (λ a e. q a (m k h).1) }

module _ {k : Kernel} {h : History} (c : Call) where
  -- A call that succeeds is the newest of the history, and the kernel has answered it.
  pub Ends-act : Ends (act c) k h (λ u h'. (k.acts h c ≡ answer u) × (h' ≡ c ∷ h))
  unfolding act
  Ends-act = record { at = λ u e. (answer-ok (k.acts h c) u e, refl) }

  pub Ends-ask_text : Ends (ask_text c) k h (λ t h'. (k.tells_text h c ≡ answer t) × (h' ≡ c ∷ h))
  unfolding ask_text
  Ends-ask_text = record { at = λ t e. (answer-ok (k.tells_text h c) t e, refl) }

  pub Ends-ask_number :
      Ends (ask_number c) k h (λ n h'. (k.tells_number h c ≡ answer n) × (h' ≡ c ∷ h))
  unfolding ask_number
  Ends-ask_number = record { at = λ n e. (answer-ok (k.tells_number h c) n e, refl) }

-- A step whose value is known.
pub Ends-value {ℓ} :
    {A : Type ℓ} (m : Exec A) (k : Kernel) (h : History) (a : A)
    → (m k h).0 ≡ ok a
    → Ends m k h (λ b _. b ≡ a)
Ends-value m k h a e = record { at = λ b f. ap (value_or a) (sym f ∙ e) }

-- A step whose run is known.
pub Ends-run {ℓ} :
    {A : Type ℓ} (m : Exec A) (k : Kernel) (h : History) (a : A) (h' : History)
    → m k h ≡ (ok a, h')
    → Ends m k h (λ b g. (b ≡ a) × (g ≡ h'))
Ends-run {A = A} m k h a h' e = record {
  at = λ b f. (
    ap (value_or a) (sym f ∙ ap (λ (r : Result A × History). r.0) e),
    ap (λ (r : Result A × History). r.1) e,
  );
}

-- Where an action keeps a property of the history, its runs end with it.
pub Ends-keeps {ℓ κ} :
    {A : Type ℓ} {P : History → Type κ} (m : Exec A) (k : Kernel) (h : History)
    → Keeps P m
    → P h
    → Ends m k h (λ _ h'. P h')
Ends-keeps m k h q p = record { at = λ a e. q.at k h p }
