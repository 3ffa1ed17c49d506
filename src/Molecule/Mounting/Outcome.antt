-- ===== src/Molecule/Mounting/Outcome.antt =====
-- `Mount`: what success rests on, and what a failure undoes.
use atomfs.Base.{
  none, some, ◌≡◌, ◌≤◌, ◌⊎◌, refl, arith, true, false, ◌&&◌, List, [], ◌∷◌, ltb, length, inl, inr,
  Bool-cases,
}
use atomfs.Text.{Bytes, bytes, is_empty}
use atomfs.System.{
  Answer, answer, failure, FileInfo, Result, ok, err, panic, History, Kernel, pure, fail, ◌>>=◌,
  ◌>>◌, continue, attempt, act_ignoring, ask_info, on_failure, failed_then, too_many_lower_dirs,
  metadir_exists, stat, mount, remove_all,
}
use atomfs.System.Trace.{
  Ends, Ends-pure, Ends-fail, Ends-bind, Ends-after, Ends-mono, Ends-act, Ends-on_failure,
  Ends-keeps,
}
use atomfs.Host.{path_exists}
use atomfs.Molecule.{Descriptor, Molecule, MountOciOpts, metadata_path}
use atomfs.Molecule.Places.{IsSteady}
use atomfs.Molecule.Atoms.{go_on, mount_atoms, mount_underlying_atoms, cleanup_atoms}
use atomfs.Molecule.Atoms.Verified.{IsHostRoot, AllVerified, mount_underlying_atoms-AllVerified}
use atomfs.Molecule.Overlay.{mount_overlay}
use atomfs.Molecule.Overlay.Options.{HasLower, overlay_args-HasLower}
use atomfs.Layer.{Setup}
use atomfs.Molecule.Mounting.Since.{Since, mount_top-Since}
use atomfs.Molecule.Mounting.{returned, undo_writeable, mount_top, mount_all, mount_molecule}

-- The newest call mounts an overlay at the target over the directories, with options that fit into
-- 4096 bytes.
abbrev pub IsOverlay : Kernel → Bytes → Bytes → History → Type 0
IsOverlay k dest lower h =
    (args : Bytes) × (before : History) × (h
      ≡ mount (bytes "overlay") dest (bytes "overlay") 0 args ∷ before)
    × HasLower dest lower args
    × (length args ≤ 4096)
    × (k.acts before (mount (bytes "overlay") dest (bytes "overlay") 0 args) ≡ answer tt)

mount_overlay-IsOverlay :
    (dest lower args : Bytes) (k : Kernel) (h : History)
    → HasLower dest lower args
    → Ends (mount_overlay dest args) k h (λ _ h'. IsOverlay k dest lower h')
unfolding mount_overlay
mount_overlay-IsOverlay dest lower args k h l = elim (Bool-cases (ltb 4096 (length args))) [
  | inl e ↦ rw e (Ends-fail too_many_lower_dirs)
  | inr e ↦ rw e (Ends-mono _ (Ends-act _) λ u h' (a, s). (args, h, s, l, ground arith, a))
]

module _ (setup : Setup) (m : Molecule) (metadir dest lower : Bytes) (k : Kernel) where
  mount_top-IsOverlay :
      (h : History) → Ends (mount_top m metadir dest lower) k h (λ _ h'. IsOverlay k dest lower h')
  unfolding mount_top
  mount_top-IsOverlay h = Ends-after _ _ λ v h₃.
      Ends-bind _ _ _ (overlay_args-HasLower m.config metadir dest lower k h₃)
        λ args h₄ l. Ends-on_failure _ _ (mount_overlay-IsOverlay dest lower args k h₄ l)

  pub mount_all-IsOverlay :
      (h : History)
      → Ends (mount_all setup m metadir dest lower) k h (λ _ h'. IsOverlay k dest lower h')
  unfolding mount_all
  mount_all-IsOverlay h =
      Ends-after _ _ λ atoms h₁. Ends-after _ _ λ u h₂. Ends-on_failure _ _ (mount_top-IsOverlay h₂)

-- Where the metadata directory exists, `Mount` fails before it changes anything.
mount_molecule_exists :
    (setup : Setup) (m : Molecule) (dest runtimedir metadir : Bytes) (fi : FileInfo) (k : Kernel)
    (h h₁ : History)
    → metadata_path m k h ≡ (ok (runtimedir, metadir), h₁)
    → k.tells_info h₁ (stat metadir) ≡ answer fi
    → mount_molecule setup m dest k h ≡ (err metadir_exists, stat metadir ∷ h₁)
unfolding mount_molecule path_exists ◌>>=◌ attempt ask_info pure fail
mount_molecule_exists setup m dest runtimedir metadir fi k h h₁ p e = rw (p, e) refl

empty-nil : (p : Bytes) → is_empty p ≡ true → p ≡ []
empty-nil [] e = refl
empty-nil (c ∷ p) e = absurd (cc e)

-- The deferred function for the writeable overlay removes nothing but the empty path.
undo_writeable_removes_nothing :
    (c : MountOciOpts) (k : Kernel) (h : History)
    → ((undo_writeable c k h).1 ≡ h) ⊎ ((undo_writeable c k h).1 ≡ remove_all [] ∷ h)
unfolding undo_writeable pure act_ignoring
undo_writeable_removes_nothing c k h =
    elim (Bool-cases (c.add_writeable_overlay && is_empty c.writeable_overlay_path)) [
      | inl e ↦ rw (e, empty-nil c.writeable_overlay_path (ground arith)) (inr refl)
      | inr e ↦ rw e (inl refl)
    ]

go_on_cleanup :
    (setup : Setup) (m : Molecule) (k : Kernel) (rest : List Descriptor) (mounted : List Bytes)
    (done : Answer _) (h : History)
    → ((more : List Bytes) (h₁ : History)
        → Ends (mount_atoms setup m more rest) k h₁ (λ r _. r.0 ≡ answer tt → r.1 ≡ []))
    → Ends
        (go_on setup mounted (λ more. mount_atoms setup m more rest) done)
        k
        h
        (λ r _. r.0 ≡ answer tt → r.1 ≡ [])
go_on_cleanup setup m k rest mounted (failure e) h ih = Ends-pure _ (λ f. absurd (cc f))
go_on_cleanup setup m k rest mounted (answer none) h ih = ih mounted h
go_on_cleanup setup m k rest mounted (answer (some t)) h ih = ih _ h

mount_atoms_cleanup :
    (setup : Setup) (m : Molecule) (k : Kernel) (atoms : List Descriptor) (mounted : List Bytes)
    (h : History)
    → Ends (mount_atoms setup m mounted atoms) k h (λ r _. r.0 ≡ answer tt → r.1 ≡ [])
unfolding mount_atoms
mount_atoms_cleanup setup m k [] mounted h = Ends-pure _ (λ f. refl)
mount_atoms_cleanup setup m k (a ∷ rest) mounted h = Ends-after _ _ λ done h₁.
    go_on_cleanup setup m k rest mounted done h₁
      (λ more h₂. mount_atoms_cleanup setup m k rest more h₂)

guarded_by_nothing {ℓ} :
    {A : Type ℓ} (r : Result A × History) (k : Kernel) → failed_then (cleanup_atoms []) k r ≡ r
unfolding cleanup_atoms pure
guarded_by_nothing (ok a, h) k = refl
guarded_by_nothing (err e, h) k = refl
guarded_by_nothing (panic, h) k = refl

module _ (setup : Setup) (m : Molecule) (metadir dest lower : Bytes) (k : Kernel) where
  same_without :
      (r : Result (Answer (Unit {0}) × List Bytes) × History)
      → ((a : Answer (Unit {0}) × List Bytes) → r.0 ≡ ok a → a.0 ≡ answer tt → a.1 ≡ [])
      → continue
          (λ atoms.
            returned atoms.0 >> on_failure (mount_top m metadir dest lower) (cleanup_atoms atoms.1))
          k
          r
        ≡ continue (λ atoms. returned atoms.0 >> mount_top m metadir dest lower) k r
  unfolding returned ◌>>=◌ pure fail on_failure
  same_without (ok (answer u, c), h) p =
      rw (p (answer u, c) refl refl) (guarded_by_nothing (mount_top m metadir dest lower k h) k)
  same_without (ok (failure e, c), h) p = refl
  same_without (err e, h) p = refl
  same_without (panic, h) p = refl

  -- The cleanup that `mountUnderlyingAtoms` returns is without effect in `Mount`: the same runs come from
  -- the code without it.
  pub mount_all_without_cleanup :
      (h : History)
      → mount_all setup m metadir dest lower k h
        ≡ (mount_underlying_atoms setup m >>= λ atoms.
              returned atoms.0 >> mount_top m metadir dest lower)
            k h
  unfolding mount_all mount_underlying_atoms ◌>>=◌
  mount_all_without_cleanup h =
      same_without (mount_underlying_atoms setup m k h)
        (mount_atoms_cleanup setup m k m.atoms [] h).at

  returned-ok :
      (r : Answer (Unit {0})) (h : History)
      → Ends (returned r) k h (λ _ h'. (r ≡ answer tt) × (h' ≡ h))
  unfolding returned
  returned-ok (answer u) h = Ends-pure tt (refl, refl)
  returned-ok (failure e) h = Ends-fail e

  -- For the root of the host and without `AllowMissingVerityData`, an overlay is mounted only over
  -- atoms that have all been verified on the way to it, each at its place.
  pub mount_all-AllVerified :
      (own : Bytes) (steady : IsSteady k m own) (root : IsHostRoot k)
      (strict : m.config.allow_missing_verity_data ≡ false) (h : History)
      → Ends (mount_all setup m metadir dest lower) k h (λ _ h'.
        IsOverlay k dest lower h'
        × ((h₁ : History) × AllVerified setup m k own m.atoms h h₁ × Since h₁ h'))
  unfolding mount_all
  mount_all-AllVerified own steady root strict h =
      Ends-bind (λ r h₁. r.0 ≡ answer tt → AllVerified setup m k own m.atoms h h₁) _ _
        (mount_underlying_atoms-AllVerified setup m k own steady root strict h)
        λ atoms h₁ v.
          Ends-bind (λ _ h₂. (atoms.0 ≡ answer tt) × (h₂ ≡ h₁)) _ _ (returned-ok atoms.0 h₁)
            λ u h₂ (e, s). Ends-on_failure _ _ (record {
              at = λ w f. (
                (mount_top-IsOverlay setup m metadir dest lower k h₂).at w f,
                (
                  h₁,
                  v e,
                  (Ends-keeps _ k h₂ (mount_top-Since h₁ m metadir dest lower) ([], s)).at w f,
                ),
              );
            })
