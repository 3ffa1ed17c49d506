-- ===== src/Command/Verify.antt =====
-- What `atomfs verify` decides, and how the image's name is cut.
use atomfs.Base.{
  ℕ, suc, ◌≡◌, ◌≢◌, ◌↔◌, refl, sym, ap, ◌∙◌, Bool, true, false, ◌&&◌, some, List, [], ◌∷◌, ◌++◌,
  if◌then◌else◌, arith, Bool-cases, inl, inr,
}
use atomfs.Text.{Bytes, bytes}
use atomfs.Text.Laws.{Lacks, sep_test}
use atomfs.FilePath.{base}
use atomfs.System.{
  Answer, answer, failure, Result, ok, err, panic, History, Kernel, pure, lift, ◌>>=◌, attempt,
  caught, continue, and_then, dm_status,
}
use atomfs.Mountinfo.{Mount}
use atomfs.Verity.{check_status, confirm_validity}
use atomfs.Verity.Confirm.{confirm_validity-eq, confirm_validity_iff}
use atomfs.Command.{is_checked, is_fine, check_mounts, verdict, cut_at_colon}

-- The name of an image is cut at its first colon.
cut_at_colon_first :
    (dir tag : Bytes)
    → Lacks (sep_test b':') dir
    → cut_at_colon (dir ++ (b':' ∷ tag)) ≡ some (dir, tag)
unfolding cut_at_colon
cut_at_colon_first [] tag h = refl
cut_at_colon_first (c ∷ dir) tag (h, hs) = rw (h, cut_at_colon_first dir tag hs) refl

-- The number of mounts that are looked at.
abbrev pub checked_count : Bytes → List Mount → ℕ
checked_count dir [] = 0
checked_count dir (m ∷ ms) = let n = checked_count dir ms in if is_checked dir m then suc n else n

-- One after the other, each of them is valid.
abbrev pub AllFine : Kernel → Bytes → History → List Mount → Type 0
AllFine k dir h [] = Unit
AllFine k dir h (m ∷ ms) =
    let q = dm_status (base m.source) in
    (is_checked dir m ≡ true → (k.tells_text h q ≡ answer (bytes "V")) × AllFine k dir (q ∷ h) ms)
    × (is_checked dir m ≡ false → AllFine k dir h ms)

caught_status :
    (r : Result (Unit {0})) (h : History)
    → r ≢ panic
    → (a : Answer (Unit {0})) × (caught (r, h) ≡ (ok a, h)) × ((is_fine a ≡ true) ↔ (r ≡ ok tt))
caught_status (ok u) h n = (answer u, refl, ((λ _. refl), (λ _. refl)))
caught_status (err e) h n = (failure e, refl, ((λ f. absurd (cc f)), (λ f. absurd (cc f))))
caught_status panic h n = absurd (n refl)

check_status_returns : (x : Answer Bytes) → check_status x ≢ panic
unfolding check_status
check_status_returns (failure e) = λ f. absurd (cc f)
check_status_returns (answer params) = ground arith

attempt_status :
    (device : Bytes) (k : Kernel) (h : History)
    → let q = dm_status (base device) in
      (a : Answer (Unit {0})) × (attempt (confirm_validity device) k h ≡ (ok a, q ∷ h))
      × ((is_fine a ≡ true) ↔ (k.tells_text h q ≡ answer (bytes "V")))
unfolding attempt
attempt_status device k h =
    let q = dm_status (base device) in
    let e = confirm_validity-eq device k h in
    let (a, s, f) =
      caught_status (check_status (k.tells_text h q)) (q ∷ h)
        (check_status_returns (k.tells_text h q)) in
    let (v, _) = confirm_validity_iff device k h in
    let first = ap (λ (r : Result (Unit {0}) × History). r.0) e in
    (a, ap caught e ∙ s, ((λ g. v.0 (first ∙ f.0 g)), (λ g. f.1 (sym first ∙ v.1 g))))

continue-lift {ℓ κ} :
    {A : Type ℓ} {B : Type κ} (g : A → Result B) (k : Kernel) (r : Result A × History) (c : A)
    → r.0 ≡ ok c
    → (continue (λ x. lift (g x)) k r).0 ≡ g c
unfolding lift
continue-lift g k (ok a, h) c e = ap (λ r. and_then r g) e
continue-lift g k (err x, h) c e = absurd (cc e)
continue-lift g k (panic, h) c e = absurd (cc e)

from_clash {ℓ} : {A : Type ℓ} → Path Bool true false → A
from_clash e = absurd (cc e)

and_iff : (a b : Bool) → (a && b ≡ true) ↔ ((a ≡ true) × (b ≡ true))
and_iff a b = ground arith

check_mounts-AllFine :
    (dir : Bytes) (ms : List Mount) (k : Kernel) (h : History)
    → (fine : Bool) × ((check_mounts dir ms k h).0 ≡ ok (checked_count dir ms, fine))
      × ((fine ≡ true) ↔ AllFine k dir h ms)
unfolding check_mounts pure lift ◌>>=◌
check_mounts-AllFine dir [] k h = (true, refl, ((λ _. tt), (λ _. refl)))
check_mounts-AllFine dir (m ∷ ms) k h = elim (Bool-cases (is_checked dir m)) [
  | inl e ↦
      let q = dm_status (base m.source) in
      let (a, s, f) = attempt_status m.source k h in
      let (fine, c, g) = check_mounts-AllFine dir ms k (q ∷ h) in
      let run =
        continue-lift (λ (rest : ℕ × Bool). ok (suc rest.0, is_fine a && rest.1)) k
          (check_mounts dir ms k (q ∷ h)) (checked_count dir ms, fine) c in
      let b = and_iff (is_fine a) fine in
      rw (e, s)
        (
          is_fine a && fine,
          run,
          (
            (λ t. ((λ _. (f.0 (b.0 t).0, g.0 (b.0 t).1)), (λ n. from_clash n))),
            (λ t. let (x, y) = t.0 refl in b.1 (f.1 x, g.1 y)),
          ),
        )
  | inr e ↦
      let (fine, c, g) = check_mounts-AllFine dir ms k h in
      rw e (fine, c, ((λ t. ((λ n. from_clash (sym n)), (λ _. g.0 t))), (λ t. g.1 (t.1 refl))))
]

verdict_iff : (n : ℕ) (fine : Bool) → (verdict (n, fine) ≡ ok tt) ↔ ((n ≢ 0) × (fine ≡ true))
unfolding verdict
verdict_iff n fine = ground arith

-- Verifying succeeds exactly if some mount is looked at, and the device mapper calls each of those
-- valid, asked for one after the other.
pub verdict-AllFine :
    (dir : Bytes) (ms : List Mount) (k : Kernel) (h : History)
    → (((check_mounts dir ms >>= λ checked. lift (verdict checked)) k h).0 ≡ ok tt)
      ↔ ((checked_count dir ms ≢ 0) × AllFine k dir h ms)
unfolding ◌>>=◌
verdict-AllFine dir ms k h =
    let (fine, c, g) = check_mounts-AllFine dir ms k h in
    let run = continue-lift verdict k (check_mounts dir ms k h) _ c in
    let v = verdict_iff (checked_count dir ms) fine in
    ((λ e. let (x, y) = v.0 (sym run ∙ e) in (x, g.0 y)), (λ (x, y). run ∙ v.1 (x, g.1 y)))
