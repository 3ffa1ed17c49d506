-- ===== src/Extract/Policy/Later.antt =====
-- The calls of ExtractSingleSquashPolicy and ExtractSingleErofsPolicy with a policy that an earlier call has
-- initialized.
use atomfs.Base.{◌≡◌, refl, sym, ap, true, none, some, ◌∷◌}
use atomfs.Text.{Bytes}
use atomfs.FilePath.{is_abs, clean}
use atomfs.System.{
  Error, Answer, answer, failure, Result, ok, err, panic, History, Kernel, pure, crash, ◌>>=◌,
  continue, attempt, mkdir_all,
}
use atomfs.Extract.{Extractor, Extractors}
use atomfs.Extract.Policy.{ExtractPolicy, init_name, excuse_of, extract_policy}
use atomfs.Extract.Policy.Choice.{abs-rooted, made-eq}

module _ (ex : Extractors) where
  marked : (p : ExtractPolicy) → p.initialized ≡ true → record p { initialized = true } ≡ p
  marked p i = λ j. record p { initialized = sym i j }

  abbrev excused_call :
      Error → History → ExtractPolicy → Result (Answer (Unit {0}) × ExtractPolicy) × History
  excused_call x h p = (ok (failure x, p), h)

  abbrev answered_call :
      Answer (Unit {0})
      → History
      → ExtractPolicy
      → Result (Answer (Unit {0}) × ExtractPolicy) × History
  answered_call a h p = (ok (a, p), h)

  marked_call :
      (p : ExtractPolicy)
      → p.initialized ≡ true
      → (k : Kernel) (r : Result (Answer (Unit {0})) × History)
      → continue {B = Answer (Unit {0}) × ExtractPolicy}
          (λ (called : Answer (Unit {0}) × ExtractPolicy).
            pure (called.0, record called.1 { initialized = true }))
          k
          (continue {B = Answer (Unit {0}) × ExtractPolicy} (λ done. pure (done, p)) k r)
        ≡ continue {B = Answer (Unit {0}) × ExtractPolicy} (λ done. pure (done, p)) k r
  unfolding pure
  marked_call p i k (ok a, h) = ap (answered_call a h) (marked p i)
  marked_call p i k (err x, h) = refl
  marked_call p i k (panic, h) = refl

  module _ (img dir : Bytes) (k : Kernel) (h : History) (rooted : is_abs dir ≡ true)
      (made : k.acts h (mkdir_all dir) ≡ answer tt) where
    -- A policy that is initialized without an extractor returns the excuse of the initialization from
    -- every later call, and tries nothing.
    extract_policy_excused :
        (p : ExtractPolicy) (x : Error)
        → p.initialized ≡ true
        → excuse_of init_name p.excuses ≡ some x
        → extract_policy ex img dir p k h ≡ (ok (failure x, p), mkdir_all dir ∷ h)
    unfolding extract_policy ◌>>=◌ pure
    extract_policy_excused p x i n =
        rw (made-eq dir k h (answer tt) made, abs-rooted dir k (mkdir_all dir ∷ h) rooted)
          (simp (i, n) (ap (excused_call x (mkdir_all dir ∷ h)) (marked p i)))

    -- Every call with a policy that has chosen an extractor, and has no excuse of the initialization,
    -- mounts by that extractor and by no other, and leaves the policy as it is.
    extract_policy_settled :
        (p : ExtractPolicy) (e : Extractor)
        → p.initialized ≡ true
        → excuse_of init_name p.excuses ≡ none
        → p.extractor ≡ some e
        → extract_policy ex img dir p k h
          ≡ (attempt (ex.mount e img (clean dir)) >>= λ done. pure (done, p)) k (mkdir_all dir ∷ h)
    unfolding extract_policy ◌>>=◌ pure
    extract_policy_settled p e i n c =
        rw (made-eq dir k h (answer tt) made, abs-rooted dir k (mkdir_all dir ∷ h) rooted)
          (simp (i, n, c)
            (marked_call p i k (attempt (ex.mount e img (clean dir)) k (mkdir_all dir ∷ h))))

    -- A policy that is initialized without an extractor or an excuse makes the call panic.
    extract_policy_nil :
        (p : ExtractPolicy)
        → p.initialized ≡ true
        → excuse_of init_name p.excuses ≡ none
        → p.extractor ≡ none
        → extract_policy ex img dir p k h ≡ (panic, mkdir_all dir ∷ h)
    unfolding extract_policy ◌>>=◌ crash
    extract_policy_nil p i x e =
        rw (made-eq dir k h (answer tt) made, abs-rooted dir k (mkdir_all dir ∷ h) rooted)
          (simp (i, x, e) refl)

  -- If the directory of the first call cannot be made, that call fails, and the policy that it leaves makes
  -- every later call panic that can make its directory.
  pub extract_policy_poisoned :
      (img dir img' dir' : Bytes) (x : Error) (p : ExtractPolicy) (k : Kernel) (h h' : History)
      → excuse_of init_name p.excuses ≡ none
      → p.extractor ≡ none
      → k.acts h (mkdir_all dir) ≡ failure x
      → is_abs dir' ≡ true
      → k.acts h' (mkdir_all dir') ≡ answer tt
      → (extract_policy ex img dir p k h
          ≡ (ok (failure x, record p { initialized = true }), mkdir_all dir ∷ h))
        × (extract_policy ex img' dir' (record p { initialized = true }) k h'
            ≡ (panic, mkdir_all dir' ∷ h'))
  unfolding extract_policy ◌>>=◌ pure
  extract_policy_poisoned img dir img' dir' x p k h h' n e f r a = (
    rw (made-eq dir k h (failure x) f) refl,
    extract_policy_nil img' dir' k h' r a (record p { initialized = true }) refl n e,
  )
