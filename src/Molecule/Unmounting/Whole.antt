-- ===== src/Molecule/Unmounting/Whole.antt =====
-- `UmountWithMetadir` from its start: it unmounts what `Mount` has put together.
use atomfs.Base.{
  ℕ, ◌≡◌, ◌⊎◌, refl, ap, subst, sym, ◌∙◌, Bool, true, false, ◌&&◌, List, [], ◌∷◌, ◌++◌, All, arith,
  inl, inr,
}
use atomfs.Text.{Bytes, bytes, text_eq, text_eq_iff, split, join}
use atomfs.FilePath.{is_abs, clean, abs}
use atomfs.System.{unmount, ok, History, Kernel, pure, ◌>>=◌, flock, close}
use atomfs.System.Trace.{
  Ends, Ends-bind, Ends-mono, Ends-act, Ends-run, Ends-value, Ends-lift, Ends-always,
}
use atomfs.Mountinfo.{Mount, parse_mounts, get_overlay_dirs}
use atomfs.Mountinfo.Find.{NoLowerdir}
use atomfs.Molecule.Overlay.Options.{IsPlain, HasLower, HasLower-first, reads_back}
use atomfs.Molecule.Unmounting.{
  find_underlying, abs_all, is_skipped, recreated, unmount_all, umount_locked, umount_with_metadir,
}
use atomfs.Molecule.Unmounting.Order.{
  changes, kept, then_unmounted, Same, Quiet, Ends-Quiet, parse_mounts-Same, unmount_all-unmounted,
}
use atomfs.Molecule.Unmounting.Steps.{remove_metadata-Quiet, metadata_path-Quiet, make_lock-Quiet}

-- An absolute path without `.`, `..` or doubled slashes.
abbrev pub IsRooted : Bytes → Type 0
IsRooted p = (is_abs p ≡ true) × (clean p ≡ p)

abbrev pub is_overlay_at : Bytes → Mount → Bool
is_overlay_at dest m = text_eq m.fs_type (bytes "overlay") && text_eq m.target dest

find_underlying_first :
    (dest : Bytes) (front back : List Mount) (m : Mount)
    → All (λ n. is_overlay_at dest n ≡ false) front
    → m.fs_type ≡ bytes "overlay"
    → m.target ≡ dest
    → find_underlying dest (front ++ (m ∷ back)) ≡ get_overlay_dirs m
unfolding find_underlying
find_underlying_first dest [] back m h e f =
    rw ((text_eq_iff m.fs_type (bytes "overlay")).1 e, (text_eq_iff m.target dest).1 f) refl
find_underlying_first dest (n ∷ front) back m (h, hs) e f =
    ground (arith, h, find_underlying_first dest front back m hs e f)

abs-IsRooted : (p : Bytes) (k : Kernel) (h : History) → IsRooted p → abs p k h ≡ (ok p, h)
unfolding abs pure
abs-IsRooted p k h (r, c) = rw (r, c) refl

abs_all-IsRooted :
    (ps : List Bytes) (k : Kernel) (h : History) → All IsRooted ps → abs_all ps k h ≡ (ok ps, h)
unfolding abs_all ◌>>=◌ pure
abs_all-IsRooted [] k h r = refl
abs_all-IsRooted (p ∷ ps) k h (r, rs) = rw (abs-IsRooted p k h r, abs_all-IsRooted ps k h rs) refl

kept-dest : (dest : Bytes) (dirs : List Bytes) → kept dest (dest ∷ dirs) ≡ kept dest dirs
unfolding is_skipped
kept-dest dest dirs = ground (arith, (text_eq_iff dest dest).1 refl)

-- A mount table whose first overlay at `dest` shows the first option that `Mount` has given it, which
-- names the directories; the kernel may show others before it and after it.
pub record Shows (dest : Bytes) (dirs : List Bytes) (mounts : List Mount) : Type 0 where
  pub front : List Mount
  pub entry : Mount
  pub back : List Mount
  pub listed : mounts ≡ front ++ (entry ∷ back)
  pub first : All (λ n. is_overlay_at dest n ≡ false) front
  pub fs_type : entry.fs_type ≡ bytes "overlay"
  pub target : entry.target ≡ dest
  pub args : Bytes
  pub lower : HasLower dest (join (bytes ":") dirs) args
  pub option : Bytes
  pub given : (rest : List Bytes) × (split b',' args ≡ option ∷ rest)
  pub before : List Bytes
  pub after : List Bytes
  pub none_before : NoLowerdir before
  pub opts : entry.opts ≡ before ++ (option ∷ after)

head_eq : {a b : Bytes} {xs ys : List Bytes} → a ∷ xs ≡ b ∷ ys → a ≡ b
head_eq e = cc e

dirs_of :
    (dest dir : Bytes) (dirs : List Bytes) (mounts : List Mount)
    → All IsPlain (dest ∷ dir ∷ dirs)
    → (s : Shows dest (dir ∷ dirs) mounts)
    → (get_overlay_dirs s.entry ≡ ok (dir ∷ dirs))
      ⊎ (get_overlay_dirs s.entry ≡ ok (dest ∷ dir ∷ dirs))
dirs_of dest dir dirs mounts (p, ps) s =
    elim (HasLower-first dest dir dirs s.args (p, ps) s.lower) [
      | inl (rest, e) ↦ inl (
          reads_back s.entry s.before s.after dir dirs ps s.fs_type s.none_before
            (s.opts ∙ ap (λ o. s.before ++ (o ∷ s.after)) (head_eq (sym s.given.1 ∙ e))))
      | inr (rest, e) ↦ inr (
          reads_back s.entry s.before s.after dest (dir ∷ dirs) (p, ps) s.fs_type s.none_before
            (s.opts ∙ ap (λ o. s.before ++ (o ∷ s.after)) (head_eq (sym s.given.1 ∙ e))))
    ]

-- What is found below `dest`, up to the target itself.
abbrev Below : Bytes → List Bytes → List Bytes → Type 0
Below dest dirs paths = (kept dest paths ≡ kept dest dirs) × All IsRooted paths

module _ (dest dir : Bytes) (dirs : List Bytes) (k : Kernel) (h : History) (mounts : List Mount)
    (rooted : All IsRooted (dest ∷ dir ∷ dirs)) (plain : All IsPlain (dest ∷ dir ∷ dirs))
    (table : (g : History) → changes k g ≡ changes k h → (parse_mounts k g).0 ≡ ok mounts)
    (shown : Shows dest (dir ∷ dirs) mounts) where
  abbrev Goal : History → Type 0
  Goal h' = changes k h' ≡ then_unmounted (unmount dest ∷ changes k h) (kept dest (dir ∷ dirs))

  unmount_found :
      (paths : List Bytes) (g : History)
      → changes k g ≡ changes k h
      → Below dest (dir ∷ dirs) paths
      → Ends (unmount_all dest paths) k g (λ _ h'. Goal h')
  unmount_found paths g e (same, _) =
      Ends-mono _ (unmount_all-unmounted dest paths k g) λ v h' (_, t).
        t
        ∙ (ap (λ b. then_unmounted (unmount dest ∷ b) (kept dest paths)) e
            ∙ ap (then_unmounted (unmount dest ∷ changes k h)) same)

  find_underlying-Below :
      (paths : List Bytes) → find_underlying dest mounts ≡ ok paths → Below dest (dir ∷ dirs) paths
  find_underlying-Below paths e =
      let same : ok paths ≡ get_overlay_dirs shown.entry =
        sym e
        ∙ (ap (find_underlying dest) shown.listed
            ∙ find_underlying_first dest shown.front shown.back shown.entry shown.first
                shown.fs_type shown.target) in
      elim (dirs_of dest dir dirs mounts plain shown) [
        | inl o ↦ subst (Below dest (dir ∷ dirs)) {x = dir ∷ dirs} (cc (same ∙ o)) (refl, rooted.1)
        | inr o ↦
            subst (Below dest (dir ∷ dirs)) {x = dest ∷ dir ∷ dirs} (cc (same ∙ o))
              (kept-dest dest (dir ∷ dirs), rooted)
      ]

  umount_locked-unmounted :
      (runtimedir : Bytes) (fd : ℕ) (g : History)
      → changes k g ≡ changes k h
      → Ends (umount_locked dest runtimedir fd) k g (λ _ h'. Goal h')
  unfolding umount_locked Quiet Same
  umount_locked-unmounted runtimedir fd g e =
      Ends-bind (λ _ h'. changes k h' ≡ changes k h) _ _
        (Ends-mono _ (Ends-act (flock fd)) λ u h₁ (g, s). rw s e)
        λ u h₁ e₁.
          Ends-bind (λ ms h'. (ms ≡ mounts) × (changes k h' ≡ changes k h)) _ _
            (record {
              at = λ ms f. (
                (Ends-value parse_mounts k h₁ mounts (table h₁ e₁)).at ms f,
                (Ends-Quiet parse_mounts k h₁ parse_mounts-Same).at ms f ∙ e₁,
              );
            })
            λ ms h₂ (same, e₂).
              Ends-bind (λ paths h'. Below dest (dir ∷ dirs) paths × (changes k h' ≡ changes k h)) _
                _
                (Ends-lift _ λ paths f.
                  (find_underlying-Below paths (ap (find_underlying dest) (sym same) ∙ f), e₂))
                λ paths h₃ (below, e₃).
                  Ends-bind (λ under h'. (under ≡ paths) × (h' ≡ h₃)) _ _
                    (Ends-run (abs_all paths) k h₃ paths h₃ (abs_all-IsRooted paths k h₃ below.1))
                    λ under h₄ (s₄, t₄).
                      Ends-bind (λ _ h'. Goal h') _ _
                        (rw s₄ (unmount_found paths h₄ (rw t₄ e₃) below))
                        λ u h₅ done.
                          Ends-mono _ (Ends-Quiet _ k h₅ (remove_metadata-Quiet dest runtimedir))
                            λ w h₆ s. s ∙ done

  -- Unmounting succeeds only after it has unmounted the target and then, in order, the lower
  -- directories of its overlay but the target and the workaround, and nothing else, if the mount
  -- table, until a change of it is granted, shows the options that `Mount` has given, and the paths are
  -- absolute and clean and hold no comma or colon.
  pub umount_with_metadir-unmounted :
      (metadir_arg : Bytes)
      → Ends (umount_with_metadir dest metadir_arg) k h (λ _ h'.
        changes k h' ≡ then_unmounted (unmount dest ∷ changes k h) (kept dest (dir ∷ dirs)))
  unfolding umount_with_metadir Quiet Same
  umount_with_metadir-unmounted metadir_arg =
      Ends-bind (λ d h'. (d ≡ dest) × (h' ≡ h)) _ _
        (Ends-run (abs dest) k h dest h (abs-IsRooted dest k h rooted.0))
        λ d h₁ (s₁, t₁).
          Ends-bind (λ _ h'. changes k h' ≡ changes k h) _ _
            (Ends-mono _ (Ends-Quiet _ k h₁ (metadata_path-Quiet (recreated d metadir_arg)))
              λ p h₂ s. s ∙ ap (changes k) t₁)
            λ paths h₂ e₂.
              Ends-bind (λ _ h'. changes k h' ≡ changes k h) _ _
                (Ends-mono _ (Ends-Quiet _ k h₂ (make_lock-Quiet paths.1)) λ p h₃ s. s ∙ e₂)
                λ fd h₃ e₃.
                  Ends-always _ (close fd) (rw s₁ (umount_locked-unmounted paths.0 fd h₃ e₃))
