-- ===== src/Molecule/Atoms/Verified.antt =====
-- Atoms that are mounted with verity, and what a failed mount leaves behind.
use atomfs.Base.{
  ◌≡◌, ◌⊎◌, refl, subst, true, false, Option, none, some, List, [], ◌∷◌, ◌++◌, inl, inr, Bool-cases,
}
use atomfs.Text.{Bytes, is_empty}
use atomfs.FilePath.{base}
use atomfs.System.{Answer, answer, failure, ok, History, Kernel, no_root_hash, unknown_media_type}
use atomfs.System.Trace.{
  Ends, Ends-pure, Ends-fail, Ends-bind, Ends-after, Ends-attempt_trace, Ends-mono,
}
use atomfs.MediaType.{Filesystem, new_from_media_type}
use atomfs.Mountinfo.{Mount, parse_mounts, find_mount}
use atomfs.Host.{am_host_root}
use atomfs.Verity.{verity_name}
use atomfs.Verity.HostMount.{IsVerityMount}
use atomfs.Layer.{Setup, type_name}
use atomfs.Layer.Mounts.{mount_layer-IsVerityMount}
use atomfs.Molecule.{Descriptor, Molecule, atoms_path}
use atomfs.Molecule.Places.{place, IsSteady, mounted_atoms_path-place}
use atomfs.Molecule.Atoms.Confirmed.{IsFound, confirm_mounted-IsConfirmed}
use atomfs.Molecule.Atoms.{
  root_hash_of, require_verity, mount_with, mount_unless, mount_atom, go_on, mount_atoms,
  mount_underlying_atoms,
}

-- Where an atom that was asked for with verity ends up: what is mounted at its place among the
-- molecule's mounts has been confirmed, or its image is mounted there through a verity device.
abbrev pub IsVerified : Kernel → Molecule → Bytes → Descriptor → History → Type 0
IsVerified k m metadir a h =
    IsFound k (place metadir a.encoded) (root_hash_of a) h
    ⊎ ((fs : Filesystem) × (new_from_media_type a.media_type ≡ some fs)
        × IsVerityMount k (verity_name (base (atoms_path m.config (a.encoded ∷ [])))) (type_name fs)
            (place metadir a.encoded) (root_hash_of a) h)

-- One atom after the other has a root hash, and is verified where its pass of the loop ends.
abbrev pub AllVerified :
    Setup → Molecule → Kernel → Bytes → List Descriptor → History → History → Type 0
AllVerified setup m k metadir [] h h' = h' ≡ h
AllVerified setup m k metadir (a ∷ rest) h h' =
    (is_empty (root_hash_of a) ≡ false)
    × IsVerified k m metadir a (mount_atom setup m a k h).1
    × AllVerified setup m k metadir rest (mount_atom setup m a k h).1 h'

-- In the user namespace of the host's root, as the kernel always tells.
abbrev pub IsHostRoot : Kernel → Type 0
IsHostRoot k = (h : History) → (am_host_root k h).0 ≡ ok true

require_verity-root_hash :
    (root_hash : Bytes) (k : Kernel) (h : History)
    → Ends (require_verity false root_hash) k h (λ _ _. is_empty root_hash ≡ false)
unfolding require_verity
require_verity-root_hash root_hash k h = elim (Bool-cases (is_empty root_hash)) [
  | inl e ↦ rw e (Ends-fail no_root_hash)
  | inr e ↦ rw e (Ends-after _ _ λ host h₁. record { at = λ u f. refl })
]

module _ (setup : Setup) (m : Molecule) (k : Kernel) (metadir : Bytes)
    (steady : IsSteady k m metadir) (root : IsHostRoot k)
    (strict : m.config.allow_missing_verity_data ≡ false) where
  mount_with-IsVerityMount :
      (a : Descriptor) (o : Option Filesystem) (h : History)
      → new_from_media_type a.media_type ≡ o
      → is_empty (root_hash_of a) ≡ false
      → Ends
          (mount_with setup o
            (atoms_path m.config (a.encoded ∷ []))
            (place metadir a.encoded)
            (root_hash_of a))
          k
          h
          (λ _ h'. IsVerified k m metadir a h')
  mount_with-IsVerityMount a none h e n = Ends-fail unknown_media_type
  mount_with-IsVerityMount a (some fs) h e n =
      Ends-mono _
        (mount_layer-IsVerityMount setup fs (atoms_path m.config (a.encoded ∷ []))
          (place metadir a.encoded) (root_hash_of a) k n h (root h))
        λ u h' v. inr (fs, e, v)

  mount_unless-IsVerified :
      (a : Descriptor) (asked : History) (mounts : List Mount) (o : Option Mount)
      → (parse_mounts k asked).0 ≡ ok mounts
      → find_mount mounts (place metadir a.encoded) ≡ o
      → is_empty (root_hash_of a) ≡ false
      → Ends
          (mount_unless setup m a (place metadir a.encoded) o)
          k
          (parse_mounts k asked).1
          (λ _ h'. IsVerified k m metadir a h')
  unfolding atoms_path
  mount_unless-IsVerified a asked mounts (some found) l f n = rw strict (
      Ends-bind (λ _ h'. IsVerified k m metadir a h') _ _
        (Ends-mono _ (confirm_mounted-IsConfirmed found.source (root_hash_of a) k _ n) λ u h' c.
          inl (record {
            asked = asked;
            mounts = mounts;
            listed = l;
            found = found;
            at_target = f;
            confirmed = c;
          }))
        λ u h₁ v. Ends-pure none v)
  mount_unless-IsVerified a asked mounts none l f n = Ends-after _ _ λ u h₁.
      Ends-bind (λ _ h'. IsVerified k m metadir a h') _ _
        (mount_with-IsVerityMount a (new_from_media_type a.media_type) h₁ refl n)
        λ v h₂ p. Ends-pure (some (place metadir a.encoded)) p

  -- For the root of the host and without `AllowMissingVerityData`, an atom that a pass of the loop
  -- accepts has a root hash, and is verified.
  pub mount_atom-IsVerified :
      (a : Descriptor) (h : History)
      → Ends
          (mount_atom setup m a)
          k
          h
          (λ _ h'. (is_empty (root_hash_of a) ≡ false) × IsVerified k m metadir a h')
  unfolding mount_atom
  mount_atom-IsVerified a h =
      Ends-bind (λ p _. p ≡ place metadir a.encoded) _ _
        (mounted_atoms_path-place k m metadir steady a.encoded h)
        λ target h₁ t. rw t (
          Ends-bind (λ _ _. is_empty (root_hash_of a) ≡ false) _ _
            (rw strict (require_verity-root_hash (root_hash_of a) k h₁))
            λ u h₂ n.
              Ends-bind
                (λ mounts h₃. ((parse_mounts k h₂).0 ≡ ok mounts) × (h₃ ≡ (parse_mounts k h₂).1)) _
                _ (record { at = λ mounts e. (e, refl) })
                λ mounts h₃ (l, s). rw s (
                  Ends-mono _
                    (mount_unless-IsVerified a h₂ mounts
                      (find_mount mounts (place metadir a.encoded)) l refl n)
                    λ o h' v. (n, v)))

  go_on-AllVerified :
      (a : Descriptor) (rest : List Descriptor) (mounted : List Bytes) (h h₁ : History)
      (done : Answer (Option Bytes))
      → h₁ ≡ (mount_atom setup m a k h).1
      → ((o : Option Bytes)
          → done ≡ answer o
          → (is_empty (root_hash_of a) ≡ false) × IsVerified k m metadir a h₁)
      → ((more : List Bytes)
          → Ends
              (mount_atoms setup m more rest)
              k
              h₁
              (λ r h'. r.0 ≡ answer tt → AllVerified setup m k metadir rest h₁ h'))
      → Ends
          (go_on setup mounted (λ more. mount_atoms setup m more rest) done)
          k
          h₁
          (λ r h'. r.0 ≡ answer tt → AllVerified setup m k metadir (a ∷ rest) h h')
  go_on-AllVerified a rest mounted h h₁ (failure e) s v ih =
      Ends-pure (failure e, mounted) (λ f. absurd (cc f))
  go_on-AllVerified a rest mounted h h₁ (answer none) s v ih =
      let (n, p) = v none refl in
      Ends-mono _ (ih mounted) λ r h' q f. (
        n,
        subst (IsVerified k m metadir a) s p,
        subst (λ x. AllVerified setup m k metadir rest x h') s (q f),
      )
  go_on-AllVerified a rest mounted h h₁ (answer (some t)) s v ih =
      let (n, p) = v (some t) refl in
      Ends-mono _ (ih (mounted ++ (t ∷ []))) λ r h' q f. (
        n,
        subst (IsVerified k m metadir a) s p,
        subst (λ x. AllVerified setup m k metadir rest x h') s (q f),
      )

  mount_atoms-AllVerified :
      (atoms : List Descriptor) (mounted : List Bytes) (h : History)
      → Ends
          (mount_atoms setup m mounted atoms)
          k
          h
          (λ r h'. r.0 ≡ answer tt → AllVerified setup m k metadir atoms h h')
  unfolding mount_atoms
  mount_atoms-AllVerified [] mounted h = Ends-pure (answer tt, []) (λ f. refl)
  mount_atoms-AllVerified (a ∷ rest) mounted h =
      Ends-bind
        (λ done h₁.
          (h₁ ≡ (mount_atom setup m a k h).1)
          × ((o : Option Bytes)
              → done ≡ answer o
              → (is_empty (root_hash_of a) ≡ false) × IsVerified k m metadir a h₁))
        _ _ (Ends-attempt_trace _ (mount_atom-IsVerified a h))
        λ done h₁ (s, v).
          go_on-AllVerified a rest mounted h h₁ done s v
            (λ more. mount_atoms-AllVerified rest more h₁)

  -- For the root of the host and without `AllowMissingVerityData`, if the atoms of a molecule are
  -- mounted without an error, then each of them, in their order, has a root hash, and at the end of
  -- its pass of the loop it was verified: its device was confirmed, or its image was mounted
  -- through a verity device.
  pub mount_underlying_atoms-AllVerified :
      (h : History)
      → Ends
          (mount_underlying_atoms setup m)
          k
          h
          (λ r h'. r.0 ≡ answer tt → AllVerified setup m k metadir m.atoms h h')
  unfolding mount_underlying_atoms
  mount_underlying_atoms-AllVerified h = mount_atoms-AllVerified m.atoms [] h
