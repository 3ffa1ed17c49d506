-- ===== src/Molecule/Mounting/Since.antt =====
-- What `Mount` calls for the overlay comes after what it has called before.
use atomfs.Base.{◌≡◌, ap, not, ◌∷◌, ◌++◌, ltb, length}
use atomfs.Text.{Bytes}
use atomfs.System.{Call, History}
use atomfs.System.Keeps.{
  Keeps, Keeps-pure, Keeps-fail, Keeps-if, Keeps-bind, Keeps-act, Keeps-act_ignoring,
  Keeps-on_failure,
}
use atomfs.Host.{ensure_dir}
use atomfs.Molecule.{Molecule, MountOciOpts, write_to_file}
use atomfs.Molecule.Overlay.{overlay_args, mount_overlay}
use atomfs.Molecule.Mounting.{undo_writeable, mount_top}

-- The second history goes on from the first.
abbrev pub Since : History → History → Type 0
Since h h' = (later : History) × (h' ≡ later ++ h)

module _ (h₀ : History) where
  one_more : (c : Call) (h : History) → Since h₀ h → Since h₀ (c ∷ h)
  one_more c h (later, e) = (c ∷ later, ap (λ t. c ∷ t) e)

  ensure_dir-Since : (d : Bytes) → Keeps (Since h₀) (ensure_dir d)
  unfolding ensure_dir
  ensure_dir-Since d = Keeps-act _ (one_more _)

  overlay_args-Since :
      (c : MountOciOpts) (metadir dest lower : Bytes)
      → Keeps (Since h₀) (overlay_args c metadir dest lower)
  unfolding overlay_args
  overlay_args-Since c metadir dest lower =
      Keeps-if (not c.add_writeable_overlay) _ _ (Keeps-pure _) (
        Keeps-bind _ _ (ensure_dir-Since _) λ u.
          Keeps-bind _ _ (ensure_dir-Since _)
            λ v. Keeps-bind _ _ (ensure_dir-Since _) λ w. Keeps-pure _)

  pub mount_top-Since :
      (m : Molecule) (metadir dest lower : Bytes)
      → Keeps (Since h₀) (mount_top m metadir dest lower)
  unfolding mount_top write_to_file mount_overlay undo_writeable
  mount_top-Since m metadir dest lower = Keeps-bind _ _ (Keeps-act _ (one_more _)) λ u.
      Keeps-bind _ _ (overlay_args-Since m.config metadir dest lower) λ args.
        Keeps-on_failure _ _
          (Keeps-if (ltb 4096 (length args)) _ _ (Keeps-fail _) (Keeps-act _ (one_more _)))
          (Keeps-if _ _ _ (Keeps-act_ignoring _ (one_more _)) (Keeps-pure _))
