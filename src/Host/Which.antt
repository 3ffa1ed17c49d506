-- ===== src/Host/Which.antt =====
-- The search for a program.
use atomfs.Base.{◌≡◌, ◌⊎◌, refl, inl, inr, List, [], ◌∷◌, In, arith}
use atomfs.Text.{Bytes}
use atomfs.System.{Kernel, History, access, Answer, answer, failure, attempt, act}
use atomfs.System.Trace.{Ends, Ends-pure, Ends-bind, Ends-mono}
use atomfs.Host.{candidates, first_executable, first_or, which_search}

-- The newest call has found the path executable.
abbrev pub IsExecutable : Kernel → Bytes → History → Type 0
IsExecutable k p (access q ∷ h) = (q ≡ p) × (k.acts h (access q) ≡ answer tt)
IsExecutable k p _ = ⊥

attempt-IsExecutable :
    (p : Bytes) (k : Kernel) (h : History)
    → Ends (attempt (act (access p))) k h (λ done h'. done ≡ answer tt → IsExecutable k p h')
unfolding attempt act
attempt-IsExecutable p k h = record { at = λ done e q. ground arith }

after_access :
    (p : Bytes) (ps : List Bytes) (done : Answer (Unit {0})) (k : Kernel) (h : History)
    → (done ≡ answer tt → IsExecutable k p h)
    → Ends (first_executable ps) k h (λ q h'. (q ≡ []) ⊎ (In q ps × IsExecutable k q h'))
    → Ends
        (first_or done p (first_executable ps))
        k
        h
        (λ q h'. (q ≡ []) ⊎ (In q (p ∷ ps) × IsExecutable k q h'))
after_access p ps (answer u) k h q rest = Ends-pure p (inr (inl refl, q refl))
after_access p ps (failure x) k h q rest =
    Ends-mono _ rest
      λ r h' e. elim e [ inl none_found ↦ inl none_found | inr (i, x') ↦ inr (inr i, x') ]

first_executable-In :
    (ps : List Bytes) (k : Kernel) (h : History)
    → Ends (first_executable ps) k h (λ p h'. (p ≡ []) ⊎ (In p ps × IsExecutable k p h'))
unfolding first_executable
first_executable-In [] k h = Ends-pure [] (inl refl)
first_executable-In (p ∷ ps) k h =
    Ends-bind (λ done h'. done ≡ answer tt → IsExecutable k p h') _ _ (attempt-IsExecutable p k h)
      λ done h₁ q. after_access p ps done k h₁ q (first_executable-In ps k h₁)

-- What the search returns is empty, or one of the candidates that the kernel has just called
-- executable.
pub which_search-IsExecutable :
    (name : Bytes) (paths : List Bytes) (k : Kernel) (h : History)
    → Ends
        (which_search name paths)
        k
        h
        (λ p h'. (p ≡ []) ⊎ (In p (candidates name paths) × IsExecutable k p h'))
unfolding which_search
which_search-IsExecutable name paths k h = first_executable-In (candidates name paths) k h
