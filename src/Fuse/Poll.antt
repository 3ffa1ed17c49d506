-- ===== src/Fuse/Poll.antt =====
-- The loop that waits for a program to serve its directory: it ends, and how it ends at the time limit.
use atomfs.Base.{
  ℕ, zero, suc, ◌+◌, ◌*◌, ◌≤◌, ◌≡◌, ◌≢◌, refl, sym, ap, ◌∙◌, Option, none, some, [], ◌∷◌, ◌==◌, ltb,
  arith, Bool-cases, inl, inr,
}
use atomfs.Text.{Bytes}
use atomfs.System.{
  Answer, answer, failure, FileInfo, ok, History, Kernel, Exec, pure, ◌>>=◌, attempt, act_ignoring,
  ask_info, ask_number, lstat, exited, elapsed, sleep, start, fuse_exited,
}
use atomfs.System.Trace.{
  Ends, Ends-pure, Ends-fail, Ends-bind, Ends-after, Ends-mono, Ends-ask_number,
}
use atomfs.Host.{file_changed, other_file}
use atomfs.Fuse.{time_limit, unchanged, poll}

-- How often the process has slept since it last started a program.
abbrev pub sleeps : History → ℕ
sleeps [] = 0
sleeps (start p args ∷ h) = 0
sleeps (sleep ∷ h) = suc (sleeps h)
sleeps (_ ∷ h) = sleeps h

-- The clock counts each sleep with 50 milliseconds at least.
abbrev pub HasClock : Kernel → Type 0
HasClock k = (h : History) → (t : ℕ) × (k.tells_number h elapsed ≡ answer t) × (50 * sleeps h ≤ t)

file_changed-eq :
    (fi : FileInfo) (dir : Bytes) (k : Kernel) (h : History)
    → file_changed fi dir k h ≡ (ok (other_file fi (k.tells_info h (lstat dir))), lstat dir ∷ h)
unfolding file_changed ask_info attempt ◌>>=◌ pure
file_changed-eq fi dir k h = ground arith

file_changed-sleeps :
    (fi : FileInfo) (dir : Bytes) (k : Kernel) (h : History)
    → Ends (file_changed fi dir) k h (λ _ h'. sleeps h' ≡ sleeps h)
file_changed-sleeps fi dir k h = record { at = λ a e. rw (file_changed-eq fi dir k h) refl }

answer_value : ℕ → Answer ℕ → ℕ
answer_value d (answer t) = t
answer_value d (failure e) = d

module _ (k : Kernel) (clock : HasClock k) where
  elapsed-Ends :
      (h : History)
      → Ends (ask_number elapsed) k h (λ t h'. (50 * sleeps h ≤ t) × (sleeps h' ≡ sleeps h))
  unfolding answer_value
  elapsed-Ends h =
      let (t, e, l) = clock h in
      Ends-mono _ (Ends-ask_number elapsed)
        λ u h' (f, s). let same : u ≡ t = ap (answer_value 0) (sym f ∙ e) in (rw same l, rw s refl)

  exited-Ends : (h : History) → Ends (ask_number exited) k h (λ _ h'. sleeps h' ≡ sleeps h)
  exited-Ends h = Ends-mono _ (Ends-ask_number exited) λ n h' (_, s). rw s refl

  sleep-Ends : (h : History) → Ends (act_ignoring sleep) k h (λ _ h'. sleeps h' ≡ suc (sleeps h))
  unfolding act_ignoring
  sleep-Ends h = record { at = λ u e. refl }

module _ (fi : FileInfo) (dir : Bytes) (give_up : Exec (Unit {0})) (k : Kernel)
    (clock : HasClock k) where
  unchanged-some :
      (again : Exec (Option (Unit {0}))) (h : History)
      → ((h₁ : History)
          → sleeps h₁ ≡ suc (sleeps h)
          → sleeps h ≤ 600
          → Ends again k h₁ (λ o _. o ≢ none))
      → Ends (unchanged fi dir give_up again) k h (λ o _. o ≢ none)
  unchanged-some again h ih =
      Ends-bind (λ _ h'. sleeps h' ≡ sleeps h) _ _ (exited-Ends k clock h)
        λ state h₁ e₁. elim (Bool-cases (state == 0)) [
          | inr b ↦ rw b (Ends-fail fuse_exited)
          | inl b ↦ rw b (
              Ends-bind (λ t h'. (50 * sleeps h₁ ≤ t) × (sleeps h' ≡ sleeps h₁)) _ _
                (elapsed-Ends k clock h₁)
                λ t h₂ (l, e₂). elim (Bool-cases (ltb time_limit t)) [
                  | inl c ↦ rw c (Ends-after _ _ λ u h₃. Ends-pure (some tt) (λ f. cc f))
                  | inr c ↦ rw c (
                      Ends-bind (λ _ h'. sleeps h' ≡ suc (sleeps h₂)) _ _ (sleep-Ends k clock h₂)
                        λ u h₃ e₃. ih h₃ (omega (arith, e₁, e₂, e₃)) (ground (arith, e₁, e₂)))
                ])
        ]

  -- With fuel for what is left of 602 rounds the loop does not run out of it, if the clock counts
  -- the sleeps.
  pub poll_ends :
      (fuel : ℕ) (h : History)
      → 602 ≤ fuel + sleeps h
      → sleeps h ≤ 601
      → Ends (poll fi dir give_up fuel) k h (λ o _. o ≢ none)
  unfolding poll
  poll_ends zero h f l = absurd (omega (arith, f, l))
  poll_ends (suc fuel) h f l =
      Ends-bind (λ _ h'. sleeps h' ≡ sleeps h) _ _ (file_changed-sleeps fi dir k h)
        λ changed h₁ e. elim (Bool-cases changed) [
          | inl c ↦ rw c (Ends-pure (some tt) (λ g. cc g))
          | inr c ↦ rw c (
              unchanged-some (poll fi dir give_up fuel) h₁
                λ h₂ s b. poll_ends fuel h₂ (omega (arith, e, s, f)) (omega (arith, s, b)))
        ]
