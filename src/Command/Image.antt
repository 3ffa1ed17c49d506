-- ===== src/Command/Image.antt =====
-- `atomfs mount` as a whole: what stands behind a success.
use atomfs.Base.{
  ◌≡◌, refl, sym, ap, ◌∙◌, false, Bool-cases, Option, none, some, List, [], ◌∷◌, reverse, inl, inr,
}
use atomfs.Text.{Bytes}
use atomfs.FilePath.{abs}
use atomfs.System.{Result, ok, err, panic, History, Kernel, Exec, usage, no_oci_dir, and_then}
use atomfs.System.Trace.{
  Ends, Ends-fail, Ends-crash, Ends-lift, Ends-pure, Ends-bind, Ends-after, Ends-mono, Ends-itself,
  Ends-always_value,
}
use atomfs.Molecule.{Molecule, MountOciOpts}
use atomfs.Molecule.Oci.{Engine, lookup_manifest, build_molecule, build_molecule_from_oci}
use atomfs.Molecule.Oci.Reversal.{build_molecule-reverse}
use atomfs.Molecule.Atoms.Verified.{IsHostRoot, AllVerified}
use atomfs.Molecule.Places.{IsSteady}
use atomfs.Molecule.Steady.{IsStill, IsStill-IsSteady}
use atomfs.Molecule.Mounting.Since.{Since}
use atomfs.Molecule.Mounting.Whole.{IsMounted, mount_molecule-AllVerified}
use atomfs.Layer.{Setup}
use atomfs.Command.{MountFlags, cut_at_colon, existing_image, find_image, mount_image, do_mount}

existing_image-some :
    (o : Option (Bytes × Bytes)) (k : Kernel) (h : History)
    → Ends (existing_image o) k h (λ image _. o ≡ some image)
existing_image-some none k h = Ends-fail usage
existing_image-some (some (dir, tag)) k h = Ends-after _ _ λ exists h₁. elim (Bool-cases exists) [
  | inl e ↦ rw e (Ends-pure (dir, tag) refl)
  | inr e ↦ rw e (Ends-fail no_oci_dir)
]

and_then-ok :
    {A B : Type 0} (r : Result A) (f : A → Result B) (b : B)
    → and_then r f ≡ ok b
    → (a : A) × (r ≡ ok a) × (f a ≡ ok b)
and_then-ok (ok a) f b e = (a, refl, e)
and_then-ok (err x) f b e = absurd (cc e)
and_then-ok panic f b e = absurd (cc e)

-- The molecule of a tag of a layout.
pub record IsImage {Desc Manifest Image : Type 0} (oci : Engine Desc Manifest Image) (tag : Bytes)
    (m : Molecule) : Type 0 where
  pub manifest : Manifest
  pub found : lookup_manifest oci tag ≡ ok manifest
  pub atoms : m.atoms ≡ reverse (oci.layers manifest)

molecule_eq : {m n : Molecule} → ok m ≡ ok n → m ≡ n
molecule_eq e = cc e

module _ {Desc Manifest Image : Type 0} (open_layout : Bytes → Exec (Engine Desc Manifest Image))
    (close_layout : Exec (Unit {0})) (k : Kernel) where
  built :
      (oci : Engine Desc Manifest Image) (opts : MountOciOpts) (m : Molecule)
      → build_molecule oci opts ≡ ok m
      → IsImage oci opts.tag m × (m.config ≡ opts)
  built oci opts m e =
      let (man, f, g) =
        and_then-ok (lookup_manifest oci opts.tag)
          (λ man. ok (record { atoms = reverse (oci.layers man); config = opts })) m
          (sym (build_molecule-reverse oci opts) ∙ e) in
      let same = sym (molecule_eq g) in
      (
        record { manifest = man; found = f; atoms = ap (λ (n : Molecule). n.atoms) same },
        ap (λ (n : Molecule). n.config) same,
      )

  build_molecule_from_oci-IsImage :
      (opts : MountOciOpts) (h : History)
      → Ends (build_molecule_from_oci open_layout close_layout opts) k h (λ m _.
        (oci : Engine Desc Manifest Image) × ((open_layout opts.oci_dir k h).0 ≡ ok oci)
        × IsImage oci opts.tag m
        × (m.config ≡ opts))
  unfolding build_molecule_from_oci
  build_molecule_from_oci-IsImage opts h =
      Ends-bind (λ oci _. (open_layout opts.oci_dir k h).0 ≡ ok oci) _ _ (Ends-itself _)
        λ oci h₁ e.
          Ends-always_value _ close_layout
            (Ends-lift _ λ m f. let (image, config) = built oci opts m f in (oci, e, image, config))

-- What `atomfs mount` has done where it succeeds: the image of the argument's tag is the molecule, in
-- the directory that the argument names, and it is mounted at the second argument, its atoms having
-- been verified before.
pub record IsImageMounted {Desc Manifest Image : Type 0} (setup : Setup)
    (open_layout : Bytes → Exec (Engine Desc Manifest Image)) (k : Kernel) (args : List Bytes)
    (h' : History) : Type 0 where
  pub image : Bytes
  pub target : Bytes
  pub more : List Bytes
  pub given : args ≡ image ∷ target ∷ more
  pub named : Bytes × Bytes
  pub cut : cut_at_colon image ≡ some named
  pub dir : Bytes
  pub dir_history : History
  pub absolute : (abs named.0 k dir_history).0 ≡ ok dir
  pub oci : Engine Desc Manifest Image
  pub oci_history : History
  pub opened : (open_layout dir k oci_history).0 ≡ ok oci
  pub molecule : Molecule
  pub built : IsImage oci named.1 molecule
  pub metadir : Bytes
  pub steady : IsSteady k molecule metadir
  pub mounted : IsMounted k molecule metadir target h'
  pub before : History
  pub after : History
  pub verified : AllVerified setup molecule k metadir molecule.atoms before after
  pub since : Since after h'

module _ {Desc Manifest Image : Type 0} (setup : Setup)
    (open_layout : Bytes → Exec (Engine Desc Manifest Image)) (close_layout exit : Exec (Unit {0}))
    (k : Kernel) (root : IsHostRoot k) (still : IsStill k) (flags : MountFlags)
    (strict : flags.allow_missing_verity ≡ false) where
  mount_image-IsImageMounted :
      (image : Bytes) (rest : List Bytes) (named : Bytes × Bytes) (h : History)
      → cut_at_colon image ≡ some named
      → Ends
          (mount_image setup open_layout close_layout exit flags rest named)
          k
          h
          (λ _ h'. IsImageMounted setup open_layout k (image ∷ rest) h')
  mount_image-IsImageMounted image [] named h c = Ends-crash
  mount_image-IsImageMounted image (target ∷ more) named h c = Ends-after _ _ λ abs_target h₁.
      Ends-bind (λ dir _. (abs named.0 k h₁).0 ≡ ok dir) _ _ (Ends-itself _)
        λ dir h₂ d. Ends-after _ _ λ persist h₃.
          Ends-bind _ _ _ (build_molecule_from_oci-IsImage open_layout close_layout k _ h₃)
            λ m h₄ (oci, opened, image_of, config).
              let (own, steady) = IsStill-IsSteady k m still in
              let kept = ap (λ (o : MountOciOpts). o.allow_missing_verity_data) config ∙ strict in
              Ends-mono _ (mount_molecule-AllVerified setup m target k own steady root kept h₄)
                λ u h' (mounted, (before, after, verified, since)). record {
                  image = image;
                  target = target;
                  more = more;
                  given = refl;
                  named = named;
                  cut = c;
                  dir = dir;
                  dir_history = h₁;
                  absolute = d;
                  oci = oci;
                  oci_history = h₃;
                  opened = opened;
                  molecule = m;
                  built = image_of;
                  metadir = own;
                  steady = steady;
                  mounted = mounted;
                  before = before;
                  after = after;
                  verified = verified;
                  since = since;
                }

  -- For the root of the host, in one namespace and working directory, and without
  -- `--allow-missing-verity`, `atomfs mount` returns no error only if one overlay is mounted at the target
  -- over a directory for each layer of the manifest that the tag names, in the reverse order, and each
  -- layer has been verified on the way to it: what is mounted at its directory was confirmed, or it was
  -- mounted there through a verity device; if `os.Exit` does not return.
  pub do_mount-IsImageMounted :
      (exits : (h : History) → Ends exit k h (λ _ _. ⊥)) (args : List Bytes) (h : History)
      → Ends
          (do_mount setup open_layout close_layout exit flags args)
          k
          h
          (λ _ h'. IsImageMounted setup open_layout k args h')
  unfolding do_mount find_image
  do_mount-IsImageMounted exits [] h = Ends-fail usage
  do_mount-IsImageMounted exits (image ∷ rest) h =
      Ends-bind (λ named _. cut_at_colon image ≡ some named) _ _
        (existing_image-some (cut_at_colon image) k h)
        λ named h₁ c. Ends-after _ _ λ privileged h₂. elim (Bool-cases privileged) [
          | inl e ↦ rw e (mount_image-IsImageMounted image rest named h₂ c)
          | inr e ↦ rw e (Ends-mono _ (exits h₂) λ u h' f. absurd f)
        ]
