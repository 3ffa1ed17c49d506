-- ===== src/Verity/Unmount.antt =====
-- `VerityUnmount` and the retries.
use atomfs.Base.{
  ℕ, zero, suc, ◌+◌, ◌≤◌, ◌≡◌, refl, Option, none, some, [], ◌∷◌, arith, Bool-cases, inl, inr,
}
use atomfs.Text.{Bytes}
use atomfs.System.{
  Error, ok, Answer, answer, failure, Call, crypt_deactivate, loop_detach, sleep, History, Kernel,
  pure, fail, ◌>>=◌, attempt, act, act_ignoring,
}
use atomfs.System.Trace.{
  Ends, Ends-bind, Ends-itself, Ends-after, Ends-act, Ends-mono, Ends-fail, Ends-pure,
}
use atomfs.Verity.{
  find_loop_backing_verity, retry, after_try, retry_if_busy, max_retries, verity_unmount, gives_up,
}

-- How often the verity device has been asked to go.
abbrev pub deactivations : History → ℕ
deactivations [] = 0
deactivations (crypt_deactivate _ ∷ h) = suc (deactivations h)
deactivations (_ ∷ h) = deactivations h

retry_bounded :
    (n : ℕ) (path : Bytes) (last : Option Error) (k : Kernel) (h : History)
    → deactivations (retry n (act (crypt_deactivate path)) last k h).1 ≤ n + deactivations h
unfolding retry after_try ◌>>=◌ attempt act act_ignoring pure fail
retry_bounded zero path none k h = omega arith
retry_bounded zero path (some e) k h = omega arith
retry_bounded (suc n) path last k h =
    go (k.acts h (crypt_deactivate path)) refl
      (λ x. retry_bounded n path (some x) k (sleep ∷ crypt_deactivate path ∷ h))
  where
    go :
        (x : Answer (Unit {0}))
        → k.acts h (crypt_deactivate path) ≡ x
        → ((y : Error)
            → deactivations
                (retry n
                  (act (crypt_deactivate path))
                  (some y)
                  k
                  (sleep ∷ crypt_deactivate path ∷ h)).1
              ≤ n + deactivations (crypt_deactivate path ∷ h))
        → deactivations (retry (suc n) (act (crypt_deactivate path)) last k h).1
          ≤ suc n + deactivations h
    go (answer u) e ih = rw (e, retry) (omega arith)
    go (failure x) e ih = elim (Bool-cases (gives_up x)) [
      | inl g ↦ rw (e, retry) (rw g (omega arith))
      | inr g ↦ rw (e, retry) (rw g (omega (arith, ih x)))
    ]

-- A verity device is asked to go five times at most.
retry_if_busy_bounded :
    (path : Bytes) (k : Kernel) (h : History)
    → deactivations (retry_if_busy (act (crypt_deactivate path)) k h).1 ≤ 5 + deactivations h
unfolding retry_if_busy
retry_if_busy_bounded path k h = retry_bounded max_retries path none k h

-- The newest call is an effect that the kernel has granted.
abbrev pub IsGranted : Kernel → Call → History → Type 0
IsGranted k c [] = ⊥
IsGranted k c (d ∷ h) = (d ≡ c) × (k.acts h d ≡ answer tt)

attempt-IsGranted :
    (c : Call) (k : Kernel) (h : History)
    → Ends (attempt (act c)) k h (λ done h'. (e : done ≡ answer tt) → IsGranted k c h')
unfolding attempt act
attempt-IsGranted c k h = record { at = λ done e q. ground arith }

module _ (c : Call) (k : Kernel) where
  retry_step :
      (n : ℕ) (last : Option Error) (h : History)
      → ((x : Error) (h₁ : History)
          → Ends (retry n (act c) (some x)) k h₁ (λ _ h'. IsGranted k c h'))
      → Ends (retry (suc n) (act c) last) k h (λ _ h'. IsGranted k c h')
  unfolding retry after_try
  retry_step n last h ih =
      Ends-bind (λ done h'. done ≡ answer tt → IsGranted k c h') _ _ (attempt-IsGranted c k h) go
    where
      go :
          (done : Answer (Unit {0})) (h₁ : History)
          → (done ≡ answer tt → IsGranted k c h₁)
          → Ends (after_try (retry n (act c)) done) k h₁ (λ _ h'. IsGranted k c h')
      go (answer u) h₁ q = Ends-pure tt (q refl)
      go (failure x) h₁ q = elim (Bool-cases (gives_up x)) [
        | inl g ↦ rw g (Ends-fail x)
        | inr g ↦ rw g (Ends-after _ _ λ u h₂. ih x h₂)
      ]

  retry-IsGranted :
      (n : ℕ) (x : Error) (h : History)
      → Ends (retry n (act c) (some x)) k h (λ _ h'. IsGranted k c h')
  retry-IsGranted zero x h = unfold retry in Ends-fail x
  retry-IsGranted (suc n) x h = retry_step n (some x) h (λ y h₁. retry-IsGranted n y h₁)

  retry_if_busy-IsGranted :
      (h : History) → Ends (retry_if_busy (act c)) k h (λ _ h'. IsGranted k c h')
  unfolding retry_if_busy
  retry_if_busy-IsGranted h = retry_step 4 none h (λ x h₁. retry-IsGranted 4 x h₁)

-- The two newest calls: the verity device has gone, and then the loop device that was found behind
-- it is detached.
abbrev pub IsTornDown : Kernel → Bytes → History → History → Type 0
IsTornDown k path start (loop_detach n ∷ h) =
    ((find_loop_backing_verity path k start).0 ≡ ok n)
    × (k.acts h (loop_detach n) ≡ answer tt)
    × IsGranted k (crypt_deactivate path) h
IsTornDown k path start _ = ⊥

-- Taking a verity device down succeeds only after the kernel has let the device go, and directly
-- after that has detached the loop device which was found behind it at the start.
pub verity_unmount-IsTornDown :
    (path : Bytes) (k : Kernel) (h : History)
    → Ends (verity_unmount path) k h (λ _ h'. IsTornDown k path h h')
unfolding verity_unmount
verity_unmount-IsTornDown path k h =
    Ends-bind (λ loop _. (find_loop_backing_verity path k h).0 ≡ ok loop) _ _ (Ends-itself _)
      λ loop h₁ found.
        Ends-bind (λ _ h'. IsGranted k (crypt_deactivate path) h') _ _
          (retry_if_busy-IsGranted (crypt_deactivate path) k h₁)
          λ u h₂ g. Ends-mono _ (Ends-act (loop_detach loop)) λ v h₃ (a, e). rw e (found, a, g)
