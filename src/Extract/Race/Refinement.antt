-- ===== src/Extract/Race/Refinement.antt =====
-- A call with a policy, as Extract/Policy models it step by step, is a path of the goroutines' relation.
use atomfs.Base.{
  ◌≡◌, ◌⊎◌, refl, subst, sym, Bool, true, false, ◌||◌, Bool-cases, Option, none, some, inl, inr,
}
use atomfs.Text.{Bytes}
use atomfs.System.{Error, Answer, answer, failure, History, Kernel}
use atomfs.System.Trace.{Ends, Ends-pure, Ends-bind, Ends-after, Ends-mono, Ends-crash}
use atomfs.Extract.{Extractor, Extractors}
use atomfs.Extract.Policy.{
  ExtractPolicy, init_name, excuse_of, mount_chosen, use_chosen, at_dir, made_dir, extract_policy,
}
use atomfs.Extract.Policy.Choice.{Selected, initialize-Selected}
use atomfs.Extract.Race.Keep.{or_true}
use atomfs.Extract.Race.{
  Shared, Place, entry, working, leaving, finished, Move, seen, unseen, lock, first, refuse, use_it,
  select, choose, mount_it, publish, unlock, back,
}

-- Moves of one goroutine, with no other between them.
pub data Moves (s : Shared) (p : Place) : Shared → Place → Type 0 where
  here : Moves s p s p
  on : {t u : Shared} {q r : Place} → Moves s p t q → Move t q u r → Moves s p u r

is_there : {A : Type 0} → Option A → Bool
is_there none = false
is_there (some _) = true

-- Whether `Extractor` or the excuse of the initialization is set.
pub has_chosen : ExtractPolicy → Bool
has_chosen p = is_there p.extractor || is_there (excuse_of init_name p.excuses)

-- What the relation shares of a policy that nobody works on.
abbrev pub shared_of : ExtractPolicy → Bool → Shared
shared_of p refused = record {
  locked = false;
  initialized = p.initialized;
  chosen = has_chosen p;
  refused = refused;
}

-- From a call of a policy to a return that leaves another, up to the mark of the early return.
abbrev pub Calls : ExtractPolicy → Bool → ExtractPolicy → Type 0
Calls p b p' = (b' : Bool) × Moves (shared_of p b) entry (shared_of p' b') finished

-- What a call does behind the tests: it returns early, or has a policy that has chosen, or chooses.
Made : ExtractPolicy → ExtractPolicy → Type 0
Made p p' =
    (p' ≡ p)
    ⊎ (((p.initialized ≡ true) × (has_chosen p ≡ true) × (p' ≡ p))
        ⊎ ((p.initialized ≡ false) × (has_chosen p' ≡ true)))

unchanged : (p : ExtractPolicy) → Made p p
unfolding Made
unchanged p = inl refl

module _ (ex : Extractors) (img : Bytes) (k : Kernel) where
  mount_chosen-Made :
      (fdest : Bytes) (p : ExtractPolicy) (h : History) (e : Option Extractor)
      → p.initialized ≡ true
      → p.extractor ≡ e
      → Ends (mount_chosen ex img fdest p e) k h (λ r _. Made p r.1)
  unfolding Made has_chosen is_there
  mount_chosen-Made fdest p h none i c = Ends-crash
  mount_chosen-Made fdest p h (some e) i c =
      Ends-after _ _ λ done h₁. Ends-pure _ (inr (inl (i, simp c refl, refl)))

  use_chosen-Made :
      (fdest : Bytes) (p : ExtractPolicy) (h : History) (x : Option Error)
      → p.initialized ≡ true
      → excuse_of init_name p.excuses ≡ x
      → Ends (use_chosen ex img fdest p x) k h (λ r _. Made p r.1)
  unfolding Made has_chosen is_there
  use_chosen-Made fdest p h none i c = mount_chosen-Made fdest p h p.extractor i refl
  use_chosen-Made fdest p h (some x) i c =
      Ends-pure _ (inr (inl (i, simp c (or_true (is_there p.extractor)), refl)))

  Selected-Made :
      (fdest : Bytes) (h : History) (p : ExtractPolicy) (r : Answer (Unit {0}) × ExtractPolicy)
      → p.initialized ≡ false
      → Selected ex img fdest k h p p.extractors r
      → Made p r.1
  unfolding Made has_chosen is_there Selected
  Selected-Made fdest h p (answer u, p') i ((e, chosen), m) = inr (inr (i, simp chosen.6 refl))
  Selected-Made fdest h p (failure x, p') i (y, n) =
      inr (inr (i, simp n (or_true (is_there p'.extractor))))

  at_dir-Made :
      (p : ExtractPolicy) (h : History) (fdest : Answer Bytes)
      → Ends (at_dir ex img p fdest) k h (λ r _. Made p r.1)
  at_dir-Made p h (failure x) = Ends-pure _ (unchanged p)
  at_dir-Made p h (answer fdest) = elim (Bool-cases p.initialized) [
    | inl i ↦ simp i (use_chosen-Made fdest p h (excuse_of init_name p.excuses) i refl)
    | inr i ↦ simp i (
        Ends-mono _ (initialize-Selected ex img fdest k p p.extractors h)
          λ r h₁ s. Selected-Made fdest h p r i s)
  ]

  made_dir-Made :
      (dir : Bytes) (p : ExtractPolicy) (h : History) (made : Answer (Unit {0}))
      → Ends (made_dir ex img dir p made) k h (λ r _. Made p r.1)
  made_dir-Made dir p h (failure x) = Ends-pure _ (unchanged p)
  made_dir-Made dir p h (answer u) = Ends-after _ _ λ fdest h₁. at_dir-Made p h₁ fdest

abbrev marked : ExtractPolicy → ExtractPolicy
marked p = record p { initialized = true }

module _ (p : ExtractPolicy) (b : Bool) where
  abbrev held : Shared
  held = record (shared_of p b) { locked = true }

  -- The deferred functions of the goroutine that initializes.
  leave_first :
      (t : Shared) (p' : ExtractPolicy)
      → t.chosen ≡ has_chosen p'
      → Moves (shared_of p b) entry t (leaving true)
      → Calls p b (marked p')
  unfolding has_chosen
  leave_first t p' c m = (
    t.refused,
    subst
        (λ x.
          Moves (shared_of p b) entry
            (record { locked = false; initialized = true; chosen = x; refused = t.refused })
            finished)
        c (on (on m (publish refl)) unlock),
  )

  leave_again :
      p.initialized ≡ true
      → Moves (shared_of p b) entry (shared_of p b) (leaving false)
      → Calls p b (marked p)
  unfolding has_chosen
  leave_again i m = (
    b,
    subst
        (λ x.
          Moves (shared_of p b) entry
            (record { locked = false; initialized = x; chosen = has_chosen p; refused = b })
            finished)
        i (on m (back refl)),
  )

  arrived : p.initialized ≡ false → Moves (shared_of p b) entry held (working true)
  arrived i = on (on (on here (unseen i)) (lock refl)) (first i)

  Made-Calls : (p' : ExtractPolicy) → Made p p' → Calls p b (marked p')
  unfolding Made
  Made-Calls p' (inl e) = elim (Bool-cases p.initialized) [
    | inl i ↦
        subst (λ q. Calls p b (marked q)) (sym e) (leave_again i (on (on here (seen i)) refuse))
    | inr i ↦
        subst (λ q. Calls p b (marked q)) (sym e) (leave_first _ p refl (on (arrived i) refuse))
  ]
  Made-Calls p' (inr (inl (i, c, e))) =
      subst (λ q. Calls p b (marked q)) (sym e)
        (leave_again i (on (on (on here (seen i)) (use_it i)) (mount_it c)))
  Made-Calls p' (inr (inr (i, c))) =
      leave_first _ p' (sym c) (on (on (arrived i) (select i)) choose)

-- Every call of `ExtractSingleSquashPolicy` or `ExtractSingleErofsPolicy` that returns has gone, alone
-- with the policy, from the entry to the return by moves of the goroutines' relation, which begin in
-- what the relation shares of the policy that is given and end in that of the policy that is left.
pub extract_policy-Calls :
    (ex : Extractors) (img dir : Bytes) (p : ExtractPolicy) (b : Bool) (k : Kernel) (h : History)
    → Ends (extract_policy ex img dir p) k h (λ r _. Calls p b r.1)
unfolding extract_policy
extract_policy-Calls ex img dir p b k h = Ends-after _ _ λ made h₁.
    Ends-bind (λ r _. Made p r.1) _ _ (made_dir-Made ex img k dir p h₁ made)
      λ r h₂ m. Ends-pure _ (Made-Calls p b r.1 m)
