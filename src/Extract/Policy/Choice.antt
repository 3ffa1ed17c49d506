-- ===== src/Extract/Policy/Choice.antt =====
-- The extractor that a policy settles on.
use atomfs.Base.{◌≡◌, ◌⊎◌, refl, ap, true, false, some, List, [], ◌∷◌, ◌++◌, In, subst, inl, inr}
use atomfs.Text.{Bytes, text_eq}
use atomfs.FilePath.{is_abs, abs, clean}
use atomfs.System.{
  Error, Answer, answer, failure, Result, ok, err, History, Kernel, Exec, pure, attempt, act,
  mkdir_all, none_suitable, no_extractors,
}
use atomfs.System.Trace.{Ends, Ends-pure, Ends-bind, Ends-mono}
use atomfs.System.Attempt.{outcome, attempt-outcome}
use atomfs.Extract.{Extractor, Extractors}
use atomfs.Extract.Policy.{
  ExtractPolicy, init_name, excuse_of, excuse, after_mount, select_extractor, initialize,
  extract_policy,
}

-- A policy that has chosen: it is initialized, and has an extractor or the excuse of the
-- initialization.
pub record IsSettled (p : ExtractPolicy) : Type 0 where
  pub initialized : p.initialized ≡ true
  pub chosen :
      ((x : Error) × (excuse_of init_name p.excuses ≡ some x))
      ⊎ ((e : Extractor) × (p.extractor ≡ some e))

init_excuse :
    (x : Error) (more : List (Bytes × Error)) → excuse_of init_name ((init_name, x) ∷ more) ≡ some x
unfolding excuse_of text_eq
init_excuse x more = refl

module _ (ex : Extractors) (img fdest : Bytes) (k : Kernel) where
  -- The mounts of these failed, one after the other, and each has its error as an excuse under its
  -- name.
  abbrev pub AllFailed : List (Bytes × Error) → List Extractor → History → History → Type 0
  AllFailed excuses [] h h' = h' ≡ h
  AllFailed excuses (b ∷ rest) h h' =
      (x : Error) × ((ex.mount b img fdest k h).0 ≡ err x)
      × In (ex.name b, x) excuses
      × AllFailed excuses rest (ex.mount b img fdest k h).1 h'

  -- The first extractor that works: from `h` on the mounts of those before it have failed, and then
  -- its own has succeeded.
  abbrev pub IsFirst : History → ExtractPolicy → List Extractor → Extractor → Type 0
  IsFirst h p es e =
      (before after : List Extractor) × (h' : History) × (es ≡ before ++ (e ∷ after))
      × AllFailed p.excuses before h h'
      × ((ex.mount e img fdest k h').0 ≡ ok tt)
      × (p.extractor ≡ some e)

  unfoldable pub Selected :
      History → ExtractPolicy → List Extractor → Answer (Unit {0}) × ExtractPolicy → Type 0
  Selected h p es (answer _, p') =
      ((e : Extractor) × IsFirst h p' es e)
      × ((y : Bytes × Error) → In y p.excuses → In y p'.excuses)
  Selected h p es (failure _, p') = (x : Error) × (excuse_of init_name p'.excuses ≡ some x)

  Selected-later :
      (p : ExtractPolicy) (e : Extractor) (es : List Extractor) (x : Error) (h h₁ : History)
      (r : Answer (Unit {0}) × ExtractPolicy)
      → h₁ ≡ (ex.mount e img fdest k h).1
      → (ex.mount e img fdest k h).0 ≡ err x
      → Selected h₁ (excuse (ex.name e) x p) es r
      → Selected h p (e ∷ es) r
  unfolding Selected
  Selected-later p e es x h h₁ (answer u, p') t f ((c, (before, after, h₂, s, a, w, i)), m) = (
    (
      c,
      (
        e ∷ before,
        after,
        h₂,
        ap (λ l. e ∷ l) s,
        (x, f, m (ex.name e, x) (inl refl), subst (λ g. AllFailed p'.excuses before g h₂) t a),
        w,
        i,
      ),
    ),
    (λ y q. m y (inr q)),
  )
  Selected-later p e es x h h₁ (failure y, p') t f s = s

  after_mount-Selected :
      (e : Extractor) (es : List Extractor) (p : ExtractPolicy)
      (rest : ExtractPolicy → Exec (Answer (Unit {0}) × ExtractPolicy)) (done : Answer (Unit {0}))
      (h h₁ : History)
      → h₁ ≡ (ex.mount e img fdest k h).1
      → (ex.mount e img fdest k h).0 ≡ outcome done
      → ((p' : ExtractPolicy) → Ends (rest p') k h₁ (λ r _. Selected h₁ p' es r))
      → Ends (after_mount ex e p rest done) k h₁ (λ r _. Selected h p (e ∷ es) r)
  unfolding Selected outcome
  after_mount-Selected e es p rest (answer u) h h₁ t w ih =
      Ends-pure _ ((e, ([], es, h, refl, refl, w, refl)), (λ y m. m))
  after_mount-Selected e es p rest (failure x) h h₁ t f ih =
      Ends-mono _ (ih (excuse (ex.name e) x p)) λ r h' s. Selected-later p e es x h h₁ r t f s

  select_extractor-Selected :
      (es : List Extractor) (p : ExtractPolicy) (h : History)
      → Ends (select_extractor ex img fdest es p) k h (λ r _. Selected h p es r)
  unfolding select_extractor Selected
  select_extractor-Selected [] p h =
      Ends-pure _ (none_suitable, init_excuse none_suitable p.excuses)
  select_extractor-Selected (e ∷ es) p h =
      Ends-bind
        (λ done h₁.
          (h₁ ≡ (ex.mount e img fdest k h).1) × ((ex.mount e img fdest k h).0 ≡ outcome done))
        _ _ (attempt-outcome _ k h)
        λ done h₁ (t, w).
          after_mount-Selected e es p (λ p'. select_extractor ex img fdest es p') done h h₁ t w
            (λ p'. select_extractor-Selected es p' h₁)

  pub initialize-Selected :
      (p : ExtractPolicy) (es : List Extractor) (h : History)
      → Ends (initialize ex img fdest p es) k h (λ r _. Selected h p es r)
  unfolding Selected
  initialize-Selected p [] h = Ends-pure _ (no_extractors, init_excuse no_extractors p.excuses)
  initialize-Selected p (e ∷ es) h = select_extractor-Selected (e ∷ es) p h

  -- What the first call leaves, whose choice starts at `h`.
  abbrev pub Settles : History → ExtractPolicy → Answer (Unit {0}) × ExtractPolicy → Type 0
  Settles h p (r, p') =
      IsSettled p' × (r ≡ answer tt → (e : Extractor) × IsFirst h p' p.extractors e)

  settles :
      (h : History) (p : ExtractPolicy) (r : Answer (Unit {0})) (p' : ExtractPolicy)
      → Selected h p p.extractors (r, p')
      → Settles h p (r, record p' { initialized = true })
  unfolding Selected
  settles h p (answer u) p' ((e, first), m) =
      (record { initialized = refl; chosen = inr (e, first.6) }, (λ _. (e, first)))
  settles h p (failure x) p' (y, n) =
      (record { initialized = refl; chosen = inl (y, n) }, (λ f. absurd (cc f)))

Ends-is {ℓ} :
    {A : Type ℓ} {k : Kernel} {h h₁ : History} {a : A} (m : Exec A)
    → m k h ≡ (ok a, h₁)
    → Ends m k h (λ x h'. (x ≡ a) × (h' ≡ h₁))
Ends-is {h₁ = h₁} {a = a} m e = record {
  at = λ x f. (cc (f, e), ap (λ (r : Result _ × History). r.1) e);
}

pub abs-rooted :
    (dir : Bytes) (k : Kernel) (h : History)
    → is_abs dir ≡ true
    → attempt (abs dir) k h ≡ (ok (answer (clean dir)), h)
unfolding abs attempt pure
abs-rooted dir k h r = rw r refl

pub made-eq :
    (dir : Bytes) (k : Kernel) (h : History) (r : Answer (Unit {0}))
    → k.acts h (mkdir_all dir) ≡ r
    → attempt (act (mkdir_all dir)) k h ≡ (ok r, mkdir_all dir ∷ h)
unfolding attempt act
made-eq dir k h (answer tt) e = rw e refl
made-eq dir k h (failure x) e = rw e refl

module _ (ex : Extractors) (img dir : Bytes) (k : Kernel) (h : History) (rooted : is_abs dir ≡ true)
    (made : k.acts h (mkdir_all dir) ≡ answer tt) where
  -- Where the directory is absolute and is made, the first call settles the policy: if it succeeds with
  -- the first extractor that works, whose mount there has succeeded and those of the ones before it
  -- have failed; and otherwise with the excuse of the initialization.
  pub extract_policy-Settles :
      (p : ExtractPolicy)
      → p.initialized ≡ false
      → Ends
          (extract_policy ex img dir p)
          k
          h
          (λ r _. Settles ex img (clean dir) k (mkdir_all dir ∷ h) p r)
  unfolding extract_policy
  extract_policy-Settles p i =
      Ends-bind (λ done h₁. (done ≡ answer tt) × (h₁ ≡ mkdir_all dir ∷ h)) _ _
        (Ends-is _ (made-eq dir k h (answer tt) made))
        λ done h₁ (e, s).
          rw (e, s)
            (Ends-bind (λ r _. Selected ex img (clean dir) k (mkdir_all dir ∷ h) p p.extractors r) _
              _
              (Ends-bind (λ fd h₂. (fd ≡ answer (clean dir)) × (h₂ ≡ mkdir_all dir ∷ h)) _ _
                (Ends-is _ (abs-rooted dir k (mkdir_all dir ∷ h) rooted))
                λ fd h₂ (f, t).
                  rw (f, t)
                    (simp i (
                      initialize-Selected ex img (clean dir) k p p.extractors (mkdir_all dir ∷ h))))
              λ r h₃ s. Ends-pure _ (settles ex img (clean dir) k (mkdir_all dir ∷ h) p r.0 r.1 s))
