-- ===== src/Molecule/Mounting/Whole.antt =====
-- `Mount` from its start: where a success has come from.
use atomfs.Base.{ℕ, ◌≡◌, refl, ap, subst, ◌∙◌, false, ◌∷◌, inl, inr, Bool-cases}
use atomfs.Text.{Bytes, bytes, join}
use atomfs.Molecule.Places.{layer_dirs, IsSteady, overlay_lower_dirs-layer_dirs}
use atomfs.System.{ok, History, Kernel, metadir_exists, close}
use atomfs.System.Trace.{
  Ends, Ends-fail, Ends-bind, Ends-after, Ends-mono, Ends-on_failure, Ends-always,
}
use atomfs.Molecule.{Molecule}
use atomfs.Molecule.Atoms.Verified.{IsHostRoot, AllVerified}
use atomfs.Molecule.Overlay.{overlay_lower_dirs}
use atomfs.Layer.{Setup}
use atomfs.Molecule.Mounting.{mount_all, mount_locked, mount_molecule}
use atomfs.Molecule.Mounting.Since.{Since}
use atomfs.Molecule.Mounting.Outcome.{IsOverlay, mount_all-IsOverlay, mount_all-AllVerified}

-- That, over a directory for each atom, and then the lock is let go.
abbrev pub IsMounted : Kernel → Molecule → Bytes → Bytes → History → Type 0
IsMounted k m metadir dest h =
    (fd : ℕ) × (before : History) × (h ≡ close fd ∷ before)
    × IsOverlay k dest (join (bytes ":") (layer_dirs metadir m.atoms)) before

module _ (setup : Setup) (m : Molecule) (dest : Bytes) (k : Kernel) where
  -- `Mount` succeeds through its middle, whose newest call then is followed by the end of the lock.
  pub mount_molecule-Ends :
      (Q : Bytes → History → History → Type 0) (h : History)
      → ((metadir lower : Bytes) (h₁ : History)
          → Ends (mount_all setup m metadir dest lower) k h₁ (λ _ h'. Q lower h₁ h'))
      → Ends (mount_molecule setup m dest) k h (λ _ h'.
        (fd : ℕ) × (g : History) × (lower : Bytes) × (h₀ h₁ : History) × (h' ≡ close fd ∷ g)
        × ((overlay_lower_dirs m k h₀).0 ≡ ok lower)
        × Q lower h₁ g)
  unfolding mount_molecule mount_locked
  mount_molecule-Ends Q h q = Ends-after _ _ λ paths h₁. Ends-after _ _ λ exists h₂.
      elim (Bool-cases exists) [
        | inl e ↦ rw e (Ends-fail metadir_exists)
        | inr e ↦ rw e (
            Ends-after _ _ λ u h₃. Ends-after _ _ λ fd h₄. Ends-always _ (close fd) (
              Ends-after _ _ λ v h₅.
                Ends-bind (λ lower h'. (overlay_lower_dirs m k h₅).0 ≡ ok lower) _ _
                  (record { at = λ lower f. f })
                  λ lower h₆ f.
                    Ends-on_failure _ _ (
                      Ends-mono _ (q paths.1 lower h₆)
                        λ w g r. (fd, g, lower, h₅, h₆, refl, f, r))))
      ]

  lower_dirs :
      (own lower : Bytes) (h : History)
      → IsSteady k m own
      → (overlay_lower_dirs m k h).0 ≡ ok lower
      → lower ≡ join (bytes ":") (layer_dirs own m.atoms)
  lower_dirs own lower h steady f = (overlay_lower_dirs-layer_dirs k m own steady h).at lower f

  -- A mount of a molecule that succeeds ends with the call that mounts the overlay at the target, over
  -- the directories of the atoms, in their order, below the molecule's one metadata path, its options
  -- of at most 4096 bytes, and then the end of the lock file.
  pub mount_molecule-IsMounted :
      (metadir : Bytes) (steady : IsSteady k m metadir) (h : History)
      → Ends (mount_molecule setup m dest) k h (λ _ h'. IsMounted k m metadir dest h')
  mount_molecule-IsMounted metadir steady h =
      Ends-mono _
        (mount_molecule-Ends (λ lower h₁ g. IsOverlay k dest lower g) h
          (λ dir lower h₁. mount_all-IsOverlay setup m dir dest lower k h₁))
        λ u h' (fd, g, lower, h₀, h₁, s, f, o).
          (fd, g, s, subst (λ l. IsOverlay k dest l g) (lower_dirs metadir lower h₀ steady f) o)

  -- For the root of the host and without `AllowMissingVerityData`, a mount of a molecule, whose metadata
  -- path is one, succeeds only with the overlay at the target over the directories of the atoms, each
  -- of which has been verified on the way to it: what is mounted at that directory was confirmed, or
  -- its image was mounted there through a verity device.
  pub mount_molecule-AllVerified :
      (metadir : Bytes) (steady : IsSteady k m metadir) (root : IsHostRoot k)
      (strict : m.config.allow_missing_verity_data ≡ false) (h : History)
      → Ends (mount_molecule setup m dest) k h (λ _ h'.
        IsMounted k m metadir dest h'
        × ((h₀ : History) × (h₁ : History) × AllVerified setup m k metadir m.atoms h₀ h₁
            × Since h₁ h'))
  mount_molecule-AllVerified metadir steady root strict h =
      Ends-mono _
        (mount_molecule-Ends
          (λ lower h₀ g.
            IsOverlay k dest lower g
            × ((h₁ : History) × AllVerified setup m k metadir m.atoms h₀ h₁ × Since h₁ g))
          h
          (λ dir lower h₀.
            mount_all-AllVerified setup m dir dest lower k metadir steady root strict h₀))
        λ u h' (fd, g, lower, h₀, h₁, s, f, (o, (h₂, v, (later, e)))). (
          (fd, g, s, subst (λ l. IsOverlay k dest l g) (lower_dirs metadir lower h₀ steady f) o),
          (h₁, h₂, v, (close fd ∷ later, s ∙ ap (λ t. close fd ∷ t) e)),
        )
