-- ===== src/Make/Outcome.antt =====
-- What a made image promises to the code that mounts it.
use atomfs.Base.{
  ◌≡◌, refl, Bool, Bool-cases, inl, inr, true, false, Option, none, some, [], if◌then◌else◌,
}
use atomfs.Text.{Bytes, is_empty}
use atomfs.System.{History, Kernel, Exec, pure, remove}
use atomfs.System.Trace.{Ends, Ends-pure, Ends-after, Ends-bind, Ends-always}
use atomfs.Exclude.{ExcludePaths}
use atomfs.MediaType.{Filesystem, new_from_media_type, new_from_media_type-generated}
use atomfs.Verity.{append_verity_data}
use atomfs.Make.{Made, compression_of, build, with_temp, make_from, exclude_text, make_image}

abbrev IsMountable : Filesystem → Bool → Made → Type 0
IsMountable fs verity made =
    (new_from_media_type made.media_type ≡ some fs) × (verity ≡ false → made.root_hash ≡ [])

module _ (fs : Filesystem) (once : Option Bool) (rootfs : Bytes) (verity : Bool) (k : Kernel) where
  hash-empty :
      (img : Bytes) (h : History) (v : Bool)
      → Ends (if v then append_verity_data img else pure []) k h (λ hash _. v ≡ false → hash ≡ [])
  hash-empty img h true = record { at = λ hash e f. absurd (cc f) }
  hash-empty img h false = Ends-pure _ (λ _. refl)

  build-IsMountable :
      (excludes : Option Bytes) (img : Bytes) (h : History)
      → Ends (build fs once rootfs verity excludes img) k h (λ made _. IsMountable fs verity made)
  unfolding build
  build-IsMountable excludes img h = Ends-after _ _ λ zstd h₁. Ends-after _ _ λ _ h₂.
      Ends-bind _ _ _ (hash-empty img h₂ verity) λ hash h₃ e.
        Ends-after _ _
          λ fd h₄. Ends-pure _ (new_from_media_type-generated fs (compression_of fs zstd), e)

  with_temp-Ends :
      (tempdir prefix : Bytes) (body : Bytes → Exec Made) (h : History)
      → ((name : Bytes) (h : History) → Ends (body name) k h (λ made _. IsMountable fs verity made))
      → Ends (with_temp tempdir prefix body) k h (λ made _. IsMountable fs verity made)
  unfolding with_temp
  with_temp-Ends tempdir prefix body h p =
      Ends-after _ _ λ name h₁. Ends-always (body name) (remove name) (p name h₁)

  make_from-IsMountable :
      (tempdir : Bytes) (excludes : Option Bytes) (h : History)
      → Ends
          (make_from fs once tempdir rootfs verity excludes)
          k
          h
          (λ made _. IsMountable fs verity made)
  unfolding make_from
  make_from-IsMountable tempdir excludes h =
      with_temp-Ends tempdir _ _ h
        λ img h₁. Ends-after _ _ λ _ h₂. Ends-after _ _ λ _ h₃. build-IsMountable excludes img h₃

  -- The media type of a made image selects the file system that made it, and an image without verity
  -- data has no root hash.
  pub make_image-IsMountable :
      (tempdir : Bytes) (eps : Option ExcludePaths) (h : History)
      → Ends (make_image fs once tempdir rootfs eps verity) k h (λ made _.
        (new_from_media_type made.media_type ≡ some fs) × (verity ≡ false → made.root_hash ≡ []))
  unfolding make_image
  make_image-IsMountable tempdir eps h = elim (Bool-cases (is_empty (exclude_text eps))) [
    | inl e ↦ rw e (make_from-IsMountable tempdir none h)
    | inr e ↦ rw e (
        with_temp-Ends tempdir _ _ h
          λ file h₁. Ends-after _ _ λ _ h₂. make_from-IsMountable tempdir (some file) h₂)
  ]
