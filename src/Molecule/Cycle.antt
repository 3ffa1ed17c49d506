-- ===== src/Molecule/Cycle.antt =====
-- A molecule is mounted and then unmounted: `Mount` and `UmountWithMetadir` of
-- pkg/molecule/molecule.go on a kernel that shows what has been mounted.
use atomfs.Base.{ℕ, ◌≡◌, refl, ap, subst, sym, ◌∙◌, List, ◌∷◌, All}
use atomfs.Text.{Bytes, bytes, join}
use atomfs.System.{answer, ok, History, Kernel, ◌>>◌, mount, unmount, close}
use atomfs.System.Trace.{Ends, Ends-bind, Ends-mono}
use atomfs.Mountinfo.{Mount, parse_mounts}
use atomfs.Layer.{Setup}
use atomfs.Molecule.{Molecule}
use atomfs.Molecule.Places.{layer_dirs, IsSteady}
use atomfs.Molecule.Overlay.Options.{IsPlain, HasLower}
use atomfs.Molecule.Mounting.{mount_molecule}
use atomfs.Molecule.Mounting.Whole.{IsMounted, mount_molecule-IsMounted}
use atomfs.Molecule.Unmounting.{umount_with_metadir}
use atomfs.Molecule.Unmounting.Order.{changes, kept, then_unmounted}
use atomfs.Molecule.Unmounting.Whole.{IsRooted, Shows, umount_with_metadir-unmounted}

-- As long as no other change is granted after those of `h`, the mount table has an overlay at `dest` over the
-- directories, with the first of the options.
pub record ShowsOverlay (k : Kernel) (dest : Bytes) (dirs : List Bytes) (args : Bytes) (h : History)
    : Type 0 where
  pub mounts : List Mount
  pub table : (g : History) → changes k g ≡ changes k h → (parse_mounts k g).0 ≡ ok mounts
  pub shown : Shows dest dirs mounts
  pub same : shown.args ≡ args

module _ (setup : Setup) (m : Molecule) (dest dir : Bytes) (dirs : List Bytes) (k : Kernel)
    (rooted : All IsRooted (dest ∷ dir ∷ dirs)) (plain : All IsPlain (dest ∷ dir ∷ dirs))
    (own : Bytes) (steady : IsSteady k m own) (atoms : layer_dirs own m.atoms ≡ dir ∷ dirs)
    (shows : (args : Bytes) (fd : ℕ) (h : History)
      → HasLower dest (join (bytes ":") (dir ∷ dirs)) args
      → k.acts h (mount (bytes "overlay") dest (bytes "overlay") 0 args) ≡ answer tt
      → ShowsOverlay k dest
          (dir ∷ dirs)
          args
          (close fd ∷ mount (bytes "overlay") dest (bytes "overlay") 0 args ∷ h)) where
  IsMounted-ShowsOverlay :
      (h : History)
      → IsMounted k m own dest h
      → (args : Bytes) × ShowsOverlay k dest (dir ∷ dirs) args h
  IsMounted-ShowsOverlay h (fd, g, s, (args, g₀, s₀, l, b, a)) = (
    args,
    subst (ShowsOverlay k dest (dir ∷ dirs) args) (sym (s ∙ ap (λ t. close fd ∷ t) s₀))
        (shows args fd g₀ (subst (λ x. HasLower dest (join (bytes ":") x) args) atoms l) a),
  )

  -- A molecule that is mounted, and then unmounted, has unmounted after the mount its target and then, in
  -- order, the directories of its atoms but the target and the workaround, and nothing else, if the
  -- paths are absolute and clean and hold no comma or colon, the molecule's metadata path is one, and
  -- the kernel shows the overlay that it has granted until it grants another change of the mounts.
  pub mount-umount_with_metadir :
      (metadir : Bytes) (h : History)
      → Ends (mount_molecule setup m dest >> umount_with_metadir dest metadir) k h (λ _ h'.
        let mounted = (mount_molecule setup m dest k h).1 in
        IsMounted k m own dest mounted
        × (changes k h'
            ≡ then_unmounted (unmount dest ∷ changes k mounted) (kept dest (dir ∷ dirs))))
  mount-umount_with_metadir metadir h =
      Ends-bind (λ _ h₁. IsMounted k m own dest h₁ × (h₁ ≡ (mount_molecule setup m dest k h).1)) _ _
        (record {
          at = λ u f. ((mount_molecule-IsMounted setup m dest k own steady h).at u f, refl);
        })
        λ u h₁ (i, e).
          let (args, s) = IsMounted-ShowsOverlay h₁ i in
          Ends-mono _
            (umount_with_metadir-unmounted dest dir dirs k h₁ s.mounts rooted plain s.table s.shown
              metadir)
            λ v h' t. rw (← e) (i, t)
