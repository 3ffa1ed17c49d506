-- ===== src/Molecule/Unmounting/Order.antt =====
-- What is unmounted with a molecule, in which order, and what `find_underlying` finds.
use atomfs.Base.{
  ℕ, zero, suc, Bool, true, false, ◌&&◌, ◌≡◌, ◌≢◌, refl, ap, ◌∙◌, Option, none, some, List, [], ◌∷◌,
  if◌then◌else◌, Bool-cases, inl, inr,
}
use atomfs.Text.{Bytes, has_suffix}
use atomfs.System.{
  Answer, answer, failure, Error, FileInfo, History, Kernel, Exec, is_not_exist, mount, unmount,
  Call, not_atomfs,
}
use atomfs.System.Trace.{Ends, Ends-pure, Ends-fail, Ends-bind, Ends-mono, Ends-act, Ends-keeps}
use atomfs.System.Keeps.{
  Keeps, Keeps-pure, Keeps-fail, Keeps-lift, Keeps-if, Keeps-attempt, Keeps-bind, Keeps-act,
  Keeps-act_ignoring, Keeps-ask_text, Keeps-ask_names, Keeps-ask_info,
}
use atomfs.Mountinfo.{Mount, parse_mounts, find_mount}
use atomfs.Verity.{
  verity_suffix, verity_unmount, find_loop_backing_verity, only_slave, loop_number, retry_if_busy,
  retry, after_try, gives_up,
}
use atomfs.Device.{get_backing_device, source_of, maybe_cleanup_backing_device, clean_up_found}
use atomfs.Molecule.Unmounting.{is_skipped, is_used, unmount_atom, unmount_atoms, unmount_all}

-- The calls that change the mount table.
abbrev pub is_change : Call → Bool
is_change (mount _ _ _ _ _) = true
is_change (unmount _) = true
is_change _ = false

abbrev pub is_granted : Answer (Unit {0}) → Bool
is_granted (answer _) = true
is_granted (failure _) = false

-- Those that the kernel has granted, the last one first.
abbrev pub changes : Kernel → History → List Call
changes k [] = []
changes k (c ∷ h) =
    let rest = changes k h in if is_change c && is_granted (k.acts h c) then c ∷ rest else rest

-- The atoms that are mounts.
abbrev pub kept : Bytes → List Bytes → List Bytes
kept dest [] = []
kept dest (a ∷ rest) = let more = kept dest rest in if is_skipped dest a then more else a ∷ more

-- The unmounts of these behind the changes before.
abbrev pub then_unmounted : List Call → List Bytes → List Call
then_unmounted before [] = before
then_unmounted before (p ∷ ps) = then_unmounted (unmount p ∷ before) ps

module _ (k₀ : Kernel) (u : List Call) where
  unfoldable pub Same : History → Type 0
  Same h = changes k₀ h ≡ u

  pub parse_mounts-Same : Keeps Same parse_mounts
  unfolding parse_mounts Same
  parse_mounts-Same = Keeps-bind _ _ (Keeps-ask_text _ (λ h p. p)) (λ text. Keeps-lift _)

  get_backing_device-Same : (p : Bytes) → Keeps Same (get_backing_device p)
  unfolding get_backing_device
  get_backing_device-Same p = Keeps-bind _ _ parse_mounts-Same λ mounts. from (find_mount mounts p)
    where
      from : (o : Option Mount) → Keeps Same (source_of o)
      from none = Keeps-fail _
      from (some m) = Keeps-pure _

  after_try-Same :
      (again : Option Error → Exec (Unit {0}))
      → ((e : Error) → Keeps Same (again (some e)))
      → (done : Answer (Unit {0})) → Keeps Same (after_try again done)
  unfolding after_try Same
  after_try-Same again q (answer v) = Keeps-pure tt
  after_try-Same again q (failure e) =
      Keeps-if (gives_up e) _ _ (Keeps-fail e)
        (Keeps-bind _ _ (Keeps-act_ignoring _ (λ h p. p)) λ v. q e)

  retry-Same :
      (n : ℕ) (fn : Exec (Unit {0})) (last : Option Error)
      → Keeps Same fn
      → Keeps Same (retry n fn last)
  unfolding retry
  retry-Same zero fn none q = Keeps-pure _
  retry-Same zero fn (some e) q = Keeps-fail _
  retry-Same (suc n) fn last q =
      Keeps-bind _ _ (Keeps-attempt fn q)
        (after_try-Same (retry n fn) (λ e. retry-Same n fn (some e) q))

  verity_unmount-Same : (p : Bytes) → Keeps Same (verity_unmount p)
  unfolding verity_unmount find_loop_backing_verity retry_if_busy Same
  verity_unmount-Same p =
      Keeps-bind _ _
        (Keeps-bind _ _ (Keeps-ask_info _ (λ h q. q))
          λ fi. Keeps-bind _ _ (Keeps-ask_names _ (λ h q. q)) from)
        λ loop.
          Keeps-bind _ _ (retry-Same _ _ none (Keeps-act _ (λ h q. q))) λ v. Keeps-act _ (λ h q. q)
    where
      number : (o : Option ℕ) → Keeps Same (loop_number o)
      number none = Keeps-fail _
      number (some n) = Keeps-pure n

      from : (names : List Bytes) → Keeps Same (only_slave names)
      from [] = Keeps-fail _
      from (name ∷ []) = number _
      from (name ∷ _ ∷ _) = Keeps-fail _

  maybe_cleanup-Same : (dev : Bytes) → Keeps Same (maybe_cleanup_backing_device dev)
  unfolding maybe_cleanup_backing_device Same
  maybe_cleanup-Same dev = Keeps-bind _ _ (Keeps-attempt _ (Keeps-ask_info _ (λ h q. q))) step
    where
      step : (found : Answer FileInfo) → Keeps Same (clean_up_found dev found)
      step (failure e) = Keeps-if (is_not_exist e) _ _ (Keeps-pure tt) (Keeps-fail e)
      step (answer fi) =
          Keeps-if (has_suffix dev verity_suffix) _ _ (verity_unmount-Same dev) (Keeps-pure tt)

-- An action that has no change of the mount table granted.
unfoldable pub Quiet {ℓ} : {A : Type ℓ} → Exec A → Type 0
Quiet m = (k₀ : Kernel) (u : List Call) → Keeps (Same k₀ u) m

pub Ends-Quiet {ℓ} :
    {A : Type ℓ} (m : Exec A) (k : Kernel) (h : History)
    → Quiet m
    → Ends m k h (λ _ h'. changes k h' ≡ changes k h)
unfolding Quiet Same
Ends-Quiet m k h q = Ends-keeps m k h (q k (changes k h)) refl

unmount_atom-unmounted :
    (a : Bytes) (k : Kernel) (h : History)
    → Ends (unmount_atom a) k h (λ _ h'. changes k h' ≡ unmount a ∷ changes k h)
unfolding unmount_atom Quiet
unmount_atom-unmounted a k h =
    Ends-bind (λ _ h'. changes k h' ≡ changes k h) _ _
      (Ends-Quiet _ k h (λ k₀ u. get_backing_device-Same k₀ u a))
      λ dev h₁ e₁.
        Ends-bind (λ _ h'. changes k h' ≡ unmount a ∷ changes k h) _ _
          (Ends-mono _ (Ends-act (unmount a)) λ v h₂ (g, s). rw (s, g, e₁))
          λ v h₂ e₂.
            Ends-bind (λ _ h'. changes k h' ≡ unmount a ∷ changes k h) _ _
              (Ends-mono _ (Ends-Quiet _ k h₂ parse_mounts-Same) λ ms h₃ s. s ∙ e₂)
              λ mounts h₃ e₃. elim (Bool-cases (is_used dev mounts)) [
                | inl f ↦ rw f (Ends-pure tt e₃)
                | inr f ↦ rw f (
                    Ends-mono _ (Ends-Quiet _ k h₃ (λ k₀ u. maybe_cleanup-Same k₀ u dev))
                      λ w h₄ s. s ∙ e₃)
              ]

unmount_atoms-unmounted :
    (dest : Bytes) (dirs : List Bytes) (k : Kernel) (h : History)
    → Ends
        (unmount_atoms dest dirs)
        k
        h
        (λ _ h'. changes k h' ≡ then_unmounted (changes k h) (kept dest dirs))
unfolding unmount_atoms
unmount_atoms-unmounted dest [] k h = Ends-pure tt refl
unmount_atoms-unmounted dest (a ∷ rest) k h = elim (Bool-cases (is_skipped dest a)) [
  | inl e ↦ rw e (unmount_atoms-unmounted dest rest k h)
  | inr e ↦ rw e (
      Ends-bind (λ _ h'. changes k h' ≡ unmount a ∷ changes k h) _ _ (unmount_atom-unmounted a k h)
        λ u h₁ s.
          Ends-mono _ (unmount_atoms-unmounted dest rest k h₁)
            λ v h₂ t. t ∙ ap (λ b. then_unmounted b (kept dest rest)) s)
]

-- Unmounting the directories of a molecule succeeds only if there are some. It unmounts the target
-- first, and then, in their order, those that are neither the target nor the workaround, once for
-- each time that they are listed, and nothing else.
pub unmount_all-unmounted :
    (dest : Bytes) (dirs : List Bytes) (k : Kernel) (h : History)
    → Ends (unmount_all dest dirs) k h (λ _ h'.
      (dirs ≢ []) × (changes k h' ≡ then_unmounted (unmount dest ∷ changes k h) (kept dest dirs)))
unfolding unmount_all
unmount_all-unmounted dest [] k h = Ends-fail not_atomfs
unmount_all-unmounted dest (a ∷ rest) k h =
    Ends-bind (λ _ h'. changes k h' ≡ unmount dest ∷ changes k h) _ _
      (Ends-mono _ (Ends-act (unmount dest)) λ u h₁ (g, s). rw (s, g) refl)
      λ u h₁ s.
        Ends-mono _ (unmount_atoms-unmounted dest (a ∷ rest) k h₁)
          λ v h₂ t. ((λ e. absurd (cc e)), t ∙ ap (λ b. then_unmounted b (kept dest (a ∷ rest))) s)
