-- ===== src/Make/Temporary.antt =====
-- The temporary files of MakeSquashfs and MakeErofs.
use atomfs.Base.{
  subst, ap, ◌≡◌, ◌⊎◌, refl, Bool, true, false, ◌||◌, Option, none, some, List, [], ◌∷◌, ◌++◌, inl,
  inr, if◌then◌else◌, Bool-cases,
}
use atomfs.Text.{Bytes, is_empty, text_eq}
use atomfs.System.{
  Answer, answer, failure, Result, ok, err, panic, History, Kernel, Exec, ◌>>=◌, continue, always,
  act_ignoring, ask_text, to_result, create_temp, remove, run,
}
use atomfs.System.Keeps.{
  Keeps, Keeps-pure, Keeps-fail, Keeps-if, Keeps-attempt, Keeps-bind, Keeps-act, Keeps-act_ignoring,
  Keeps-ask_text, Keeps-ask_names, Keeps-ask_info, Keeps-ask_number,
}
use atomfs.Exclude.{member, delete}
use atomfs.Exclude.Parents.{member-delete}
use atomfs.Exclude.{ExcludePaths}
use atomfs.MediaType.{Filesystem, squashfs, erofs}
use atomfs.Verity.{is_cryptsetup_einval, root_hash_of, append_verity_data}
use atomfs.Make.{
  with_temp, mksquashfs_supports_zstd, uses_zstd, build, make_from, write_error, write_excludes,
  exclude_text, make_image, image_prefix, exclude_prefix,
}

module _ (k : Kernel) where
  abbrev pub named : Answer Bytes → List Bytes → List Bytes
  named (answer name) names = name ∷ names
  named (failure _) names = names

  -- The names that `os.CreateTemp` has given.
  unfoldable pub temps : History → List Bytes
  temps [] = []
  temps (create_temp d p ∷ h) = named (k.tells_text h (create_temp d p)) (temps h)
  temps (_ ∷ h) = temps h

  -- The files that may exist among them: a program may make every file whose name is an argument.
  unfoldable pub left : History → List Bytes
  left [] = []
  left (create_temp d p ∷ h) = named (k.tells_text h (create_temp d p)) (left h)
  left (run program args ∷ h) = args ++ left h
  left (remove name ∷ h) = delete name (left h)
  left (_ ∷ h) = left h

  -- What has been made since `h` under a temporary name is gone in `h'`.
  abbrev pub Gone : History → History → Type 0
  Gone h h' =
      (name : Bytes)
      → member name (temps h') ≡ true
      → (member name (temps h) ≡ true) ⊎ (member name (left h') ≡ false)

  -- Whether it succeeds or fails, the action leaves no temporary file of its own.
  record IsTidy {ℓ} {A : Type ℓ} (m : Exec A) : Type 0 where
    pub at : (h : History) → Gone h (m k h).1

  -- An action that makes no temporary file.
  abbrev Same : List Bytes → History → Type 0
  Same names h = temps h ≡ names

  named_before : (h h' : History) → temps h' ≡ temps h → Gone h h'
  named_before h h' e name m = inl (cc (ap (member name) e, m))

  quiet-IsTidy {ℓ} :
      {A : Type ℓ} (m : Exec A) → ((names : List Bytes) → Keeps (Same names) m) → IsTidy m
  quiet-IsTidy m q = record { at = λ h. named_before h (m k h).1 ((q (temps h)).at k h refl) }

  continue-Gone {ℓ κ} :
      {A : Type ℓ} {B : Type κ} (f : A → Exec B) (h : History) (r : Result A × History)
      → temps r.1 ≡ temps h
      → ((a : A) → IsTidy (f a))
      → Gone h (continue f k r).1
  continue-Gone f h (ok a, h₁) e p name m =
      subst (λ names. (member name names ≡ true) ⊎ (member name (left (f a k h₁).1) ≡ false)) e
        ((p a).at h₁ name m)
  continue-Gone f h (err x, h₁) e p name m = named_before h h₁ e name m
  continue-Gone f h (panic, h₁) e p name m = named_before h h₁ e name m

  bind-IsTidy {ℓ κ} :
      {A : Type ℓ} {B : Type κ} (m : Exec A) (f : A → Exec B)
      → ((names : List Bytes) → Keeps (Same names) m)
      → ((a : A) → IsTidy (f a))
      → IsTidy (m >>= f)
  unfolding ◌>>=◌
  bind-IsTidy m f q p = record { at = λ h. continue-Gone f h (m k h) ((q (temps h)).at k h refl) p }

  removed :
      (name : Bytes) (h h' : History)
      → (other : Bytes) → (member other (name ∷ temps h) ≡ true) ⊎ (member other (left h') ≡ false)
      → (member other (temps h) ≡ true) ⊎ (member other (delete name (left h')) ≡ false)
  unfolding member
  removed name h h' other m = elim (Bool-cases (text_eq name other)) [
    | inl e ↦ inr (rw (member-delete name other (left h'), e) refl)
    | inr e ↦ elim m [
      | inl n ↦ inl (subst (λ b. b || member other (temps h) ≡ true) e n)
      | inr n ↦ inr (rw (member-delete name other (left h'), e) n)
    ]
  ]

  with_temp-IsTidy {ℓ} :
      {A : Type ℓ} (tempdir prefix : Bytes) (body : Bytes → Exec A)
      → ((name : Bytes) → IsTidy (body name))
      → IsTidy (with_temp tempdir prefix body)
  unfolding with_temp ◌>>=◌ always act_ignoring ask_text temps left
  with_temp-IsTidy {A = A} tempdir prefix body p = record { at = λ h. ended h _ refl }
    where
      ended :
          (h : History) (a : Answer Bytes)
          → k.tells_text h (create_temp tempdir prefix) ≡ a
          → Gone h
              (continue {B = A}
                (λ name. always (body name) (act_ignoring (remove name)))
                k
                (to_result a, create_temp tempdir prefix ∷ h)).1
      ended h (answer name) e other m =
          removed name h (body name k (create_temp tempdir prefix ∷ h)).1 other (
            subst
              (λ (a : Answer Bytes).
                (member other (named a (temps h)) ≡ true)
                ⊎ (member other (left (body name k (create_temp tempdir prefix ∷ h)).1) ≡ false))
              e ((p name).at (create_temp tempdir prefix ∷ h) other m))
      ended h (failure x) e other m = inl (subst (λ a. member other (named a (temps h)) ≡ true) e m)

  -- The steps between.
  module _ (names : List Bytes) where
    root_hash_of-Same : (key : Answer Bytes) → Keeps (Same names) (root_hash_of key)
    root_hash_of-Same (answer key) = Keeps-pure _
    root_hash_of-Same (failure e) =
        Keeps-if (is_cryptsetup_einval e) _ _ (Keeps-fail _) (Keeps-fail _)

    append_verity_data-Same : (file : Bytes) → Keeps (Same names) (append_verity_data file)
    unfolding append_verity_data temps
    append_verity_data-Same file = Keeps-bind _ _ (Keeps-ask_info _ (λ h p. p)) λ fi.
        Keeps-if _ _ _ (Keeps-fail _) (
          Keeps-bind _ _ (Keeps-act _ (λ h p. p)) λ _. Keeps-bind _ _ (Keeps-act _ (λ h p. p)) λ _.
            Keeps-bind _ _ (Keeps-attempt _ (Keeps-ask_text _ (λ h p. p)))
              λ key. root_hash_of-Same key)

    uses_zstd-Same : (fs : Filesystem) (once : Option Bool) → Keeps (Same names) (uses_zstd fs once)
    unfolding mksquashfs_supports_zstd temps
    uses_zstd-Same erofs once = Keeps-pure _
    uses_zstd-Same squashfs (some known) = Keeps-pure _
    uses_zstd-Same squashfs none =
        Keeps-bind _ _ (Keeps-attempt _ (Keeps-ask_names _ (λ h p. p))) λ texts. Keeps-pure _

    build-Same :
        (fs : Filesystem) (once : Option Bool) (rootfs : Bytes) (verity : Bool)
        (excludes : Option Bytes) (img : Bytes)
        → Keeps (Same names) (build fs once rootfs verity excludes img)
    unfolding build temps
    build-Same fs once rootfs verity excludes img = Keeps-bind _ _ (uses_zstd-Same fs once) λ zstd.
        Keeps-bind _ _ (Keeps-act _ (λ h p. p)) λ _.
          Keeps-bind _ _ (Keeps-if verity _ _ (append_verity_data-Same img) (Keeps-pure _))
            λ hash. Keeps-bind _ _ (Keeps-ask_number _ (λ h p. p)) λ fd. Keeps-pure _

    write_error-Same : (a : Answer (Unit {0})) → Keeps (Same names) (write_error a)
    write_error-Same (answer u) = Keeps-pure _
    write_error-Same (failure e) = Keeps-fail _

    write_excludes-Same : (file text : Bytes) → Keeps (Same names) (write_excludes file text)
    unfolding write_excludes temps
    write_excludes-Same file text =
        Keeps-bind _ _ (Keeps-attempt _ (Keeps-act _ (λ h p. p)))
          λ written. Keeps-bind _ _ (Keeps-act_ignoring _ (λ h p. p)) λ _. write_error-Same written

  if-IsTidy {ℓ} :
      {A : Type ℓ} (b : Bool) (m n : Exec A) → IsTidy m → IsTidy n → IsTidy (if b then m else n)
  if-IsTidy true m n p q = p
  if-IsTidy false m n p q = q

  make_from-IsTidy :
      (fs : Filesystem) (once : Option Bool) (tempdir rootfs : Bytes) (verity : Bool)
      (excludes : Option Bytes)
      → IsTidy (make_from fs once tempdir rootfs verity excludes)
  unfolding make_from temps
  make_from-IsTidy fs once tempdir rootfs verity excludes =
      with_temp-IsTidy tempdir (image_prefix fs) _ λ img.
        bind-IsTidy _ _ (λ names. Keeps-act_ignoring _ (λ h p. p))
          λ _.
            bind-IsTidy _ _ (λ names. Keeps-act_ignoring _ (λ h p. p))
              λ _. quiet-IsTidy _ λ names. build-Same names fs once rootfs verity excludes img

  -- Whether it succeeds, fails or panics, making an image leaves none of the files whose names
  -- `os.CreateTemp` has given on the way.
  pub make_image-IsTidy :
      (fs : Filesystem) (once : Option Bool) (tempdir rootfs : Bytes) (eps : Option ExcludePaths)
      (verity : Bool) (h : History)
      → Gone h (make_image fs once tempdir rootfs eps verity k h).1
  unfolding make_image
  make_image-IsTidy fs once tempdir rootfs eps verity h =
      (if-IsTidy (is_empty (exclude_text eps)) _ _
          (make_from-IsTidy fs once tempdir rootfs verity none)
          (with_temp-IsTidy tempdir (exclude_prefix fs) _ λ file.
            bind-IsTidy _ _ (λ names. write_excludes-Same names file (exclude_text eps))
              λ _. make_from-IsTidy fs once tempdir rootfs verity (some file))).at
        h
