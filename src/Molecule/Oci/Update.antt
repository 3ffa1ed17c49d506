-- ===== src/Molecule/Oci/Update.antt =====
-- UpdateImageConfig of pkg/oci/oci.go: a tag gets a new config and a new manifest.
use atomfs.Base.{ℕ, true, ◌≡◌, refl, ap, [], ◌∷◌}
use atomfs.Text.{Bytes, text_eq, text_eq_iff}
use atomfs.System.{Answer, answer, failure, ok}
use atomfs.Molecule.Oci.{
  Engine, media_type_image_manifest, media_type_image_config, lookup_manifest, lookup_config,
}

-- `ispec.Descriptor`
pub record BlobDescriptor : Type 0 where
  pub media_type : Bytes
  pub digest : Bytes
  pub size : ℕ

-- What the OCI library stores: a blob is answered with its digest and size, a reference is moved.
-- `Store` is the state of the layout and `engine` what can be read in it.
pub record Layout (Store Manifest Image : Type 0) : Type 0 where
  pub engine : Store → Engine BlobDescriptor Manifest Image
  pub put_config : Image → Store → Answer (Bytes × ℕ) × Store
  pub put_manifest : Manifest → Store → Answer (Bytes × ℕ) × Store
  pub update_reference : Bytes → BlobDescriptor → Store → Answer (Unit {0}) × Store
  -- `newManifest.Config = …`
  pub with_config : BlobDescriptor → Manifest → Manifest

same_text : (s : Bytes) → text_eq s s ≡ true
same_text s = (text_eq_iff s s).1 refl

module _ {Store Manifest Image : Type 0} (oci : Layout Store Manifest Image) where
  abbrev pub describe : Bytes → Bytes × ℕ → BlobDescriptor
  describe media_type blob = record { media_type = media_type; digest = blob.0; size = blob.1 }

  abbrev pub referenced : BlobDescriptor → Answer (Unit {0}) × Store → Answer BlobDescriptor × Store
  referenced desc (failure e, s) = (failure e, s)
  referenced desc (answer _, s) = (answer desc, s)

  abbrev pub with_manifest : Bytes → Answer (Bytes × ℕ) × Store → Answer BlobDescriptor × Store
  with_manifest name (failure e, s) = (failure e, s)
  with_manifest name (answer blob, s) =
      let desc = describe media_type_image_manifest blob in
      referenced desc (oci.update_reference name desc s)

  abbrev pub with_config_blob :
      Bytes → Manifest → Answer (Bytes × ℕ) × Store → Answer BlobDescriptor × Store
  with_config_blob name manifest (failure e, s) = (failure e, s)
  with_config_blob name manifest (answer blob, s) =
      with_manifest name
        (oci.put_manifest (oci.with_config (describe media_type_image_config blob) manifest) s)

  -- `UpdateImageConfig`
  unfoldable pub update_image_config :
      Bytes → Image → Manifest → Store → Answer BlobDescriptor × Store
  update_image_config name new_config new_manifest s =
      with_config_blob name new_manifest (oci.put_config new_config s)

  -- What the library promises: a blob that is stored can be read by its digest and size, with the
  -- media type that the descriptor says, until it is deleted, and a reference resolves to the
  -- descriptor that it was moved to.
  abbrev pub HoldsConfig : Store → BlobDescriptor → Image → Type 0
  HoldsConfig s d c =
      ((oci.engine s).media_type_of d ≡ answer d.media_type) × ((oci.engine s).image_data d ≡ c)

  abbrev pub HoldsManifest : Store → BlobDescriptor → Manifest → Type 0
  HoldsManifest s d m =
      ((oci.engine s).media_type_of d ≡ answer d.media_type) × ((oci.engine s).manifest_data d ≡ m)

  pub record IsLayout : Type 0 where
    pub config_stored :
        (c : Image) (s t : Store) (blob : Bytes × ℕ)
        → oci.put_config c s ≡ (answer blob, t)
        → HoldsConfig t (describe media_type_image_config blob) c
    pub manifest_stored :
        (m : Manifest) (s t : Store) (blob : Bytes × ℕ)
        → oci.put_manifest m s ≡ (answer blob, t)
        → HoldsManifest t (describe media_type_image_manifest blob) m
    pub config_kept :
        (m : Manifest) (s t : Store) (blob : Bytes × ℕ) (d : BlobDescriptor) (c : Image)
        → oci.put_manifest m s ≡ (answer blob, t)
        → HoldsConfig s d c
        → HoldsConfig t d c
    pub referenced_last :
        (name : Bytes) (d : BlobDescriptor) (s t : Store)
        → oci.update_reference name d s ≡ (answer tt, t)
        → (oci.engine t).resolve_reference name ≡ answer (d ∷ [])
    pub blobs_kept :
        (name : Bytes) (d : BlobDescriptor) (s t : Store)
        → oci.update_reference name d s ≡ (answer tt, t)
        → ((e : BlobDescriptor) (c : Image) → HoldsConfig s e c → HoldsConfig t e c)
          × ((e : BlobDescriptor) (m : Manifest) → HoldsManifest s e m → HoldsManifest t e m)

  -- After a successful update, the tag resolves to the new manifest with the descriptor of the new
  -- config, by which the new config is read.
  abbrev pub IsUpdated : Bytes → Image → Manifest → Store → Type 0
  IsUpdated name c m t =
      (d : BlobDescriptor) × (lookup_manifest (oci.engine t) name ≡ ok (oci.with_config d m))
      × (lookup_config (oci.engine t) d ≡ ok c)

  module _ (law : IsLayout) where
    updated :
        (name : Bytes) (c : Image) (m : Manifest) (s₁ s₂ t : Store) (cfg man : Bytes × ℕ)
        → HoldsConfig s₁ (describe media_type_image_config cfg) c
        → oci.put_manifest (oci.with_config (describe media_type_image_config cfg) m) s₁
          ≡ (answer man, s₂)
        → oci.update_reference name (describe media_type_image_manifest man) s₂ ≡ (answer tt, t)
        → IsUpdated name c m t
    unfolding lookup_manifest lookup_config
    updated name c m s₁ s₂ t cfg man held stored moved =
        let kept = law.blobs_kept name _ s₂ t moved in
        let config = kept.0 _ c (law.config_kept _ s₁ s₂ man _ c stored held) in
        let manifest = kept.1 _ _ (law.manifest_stored _ s₁ s₂ man stored) in
        (
          describe media_type_image_config cfg,
          rw
              (
                law.referenced_last name _ s₂ t moved,
                manifest.0,
                same_text media_type_image_manifest,
              )
              (ap ok manifest.1),
          rw (config.0, same_text media_type_image_config) (ap ok config.1),
        )

    after_reference :
        (name : Bytes) (desc e : BlobDescriptor) (s : Store) (r : Answer (Unit {0}) × Store)
        → oci.update_reference name desc s ≡ r
        → (referenced desc r).0 ≡ answer e
        → oci.update_reference name desc s ≡ (answer tt, (referenced desc r).1)
    after_reference name desc e s (answer tt, t) p q = p
    after_reference name desc e s (failure x, t) p q = absurd (cc q)

    after_manifest :
        (name : Bytes) (c : Image) (m : Manifest) (s₁ : Store) (cfg : Bytes × ℕ)
        (e : BlobDescriptor) (r : Answer (Bytes × ℕ) × Store)
        → HoldsConfig s₁ (describe media_type_image_config cfg) c
        → oci.put_manifest (oci.with_config (describe media_type_image_config cfg) m) s₁ ≡ r
        → (with_manifest name r).0 ≡ answer e
        → IsUpdated name c m (with_manifest name r).1
    after_manifest name c m s₁ cfg e (answer man, s₂) held p q =
        updated name c m s₁ s₂ _ cfg man held p (after_reference name _ e s₂ _ refl q)
    after_manifest name c m s₁ cfg e (failure x, s₂) held p q = absurd (cc q)

    after_config :
        (name : Bytes) (c : Image) (m : Manifest) (s : Store) (e : BlobDescriptor)
        (r : Answer (Bytes × ℕ) × Store)
        → oci.put_config c s ≡ r
        → (with_config_blob name m r).0 ≡ answer e
        → IsUpdated name c m (with_config_blob name m r).1
    after_config name c m s e (answer cfg, s₁) p q =
        after_manifest name c m s₁ cfg e _ (law.config_stored c s s₁ cfg p) refl q
    after_config name c m s e (failure x, s₁) p q = absurd (cc q)

    -- An update that succeeds is seen by the lookups: the tag resolves to the new manifest with the
    -- descriptor of the new config, by which the new config is read. The library keeps its blobs and
    -- references, as `IsLayout` says.
    pub update_image_config-IsUpdated :
        (name : Bytes) (c : Image) (m : Manifest) (s : Store) (e : BlobDescriptor)
        → (update_image_config name c m s).0 ≡ answer e
        → IsUpdated name c m (update_image_config name c m s).1
    unfolding update_image_config
    update_image_config-IsUpdated name c m s e q = after_config name c m s e _ refl q
