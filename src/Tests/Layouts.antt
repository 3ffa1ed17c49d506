-- ===== src/Tests/Layouts.antt =====
-- A layout that stores each blob under its own text.
use atomfs.Base.{ℕ, refl, ap, sym, ◌∙◌, List, [], ◌∷◌, ◌++◌, if◌then◌else◌, length}
use atomfs.Text.{Bytes, bytes, text_eq, text_eq_iff}
use atomfs.System.{Answer, answer, failure, errno}
use atomfs.Molecule.Oci.{Engine}
use atomfs.Molecule.Oci.Update.{
  BlobDescriptor, Layout, update_image_config, IsLayout, IsUpdated, update_image_config-IsUpdated,
}

abbrev References : Type 0
References = Bytes → Answer (List BlobDescriptor)

abbrev reads : References → Engine BlobDescriptor Bytes Bytes
reads s = record {
  resolve_reference = s;
  media_type_of = λ d. answer d.media_type;
  manifest_data = λ d. d.digest;
  image_data = λ d. d.digest;
  layers = λ m. [];
}

abbrev plain : Layout References Bytes Bytes
plain = record {
  engine = reads;
  put_config = λ c s. (answer (c, length c), s);
  put_manifest = λ m s. (answer (m, length m), s);
  update_reference = λ name d s. (answer tt, λ n. if text_eq n name then answer (d ∷ []) else s n);
  with_config = λ d m. m ++ d.digest;
}

abbrev digest_of : Answer (Bytes × ℕ) × References → Bytes
digest_of (answer blob, s) = blob.0
digest_of (failure e, s) = []

found_at : Bytes → Answer (Unit {0}) × References → Answer (List BlobDescriptor)
found_at name r = r.1 name

plain-IsLayout : IsLayout plain
unfolding found_at
plain-IsLayout = record {
  config_stored = λ c s t blob e. (refl, sym (ap digest_of e));
  manifest_stored = λ m s t blob e. (refl, sym (ap digest_of e));
  config_kept = λ m s t blob d c e held. held;
  referenced_last =
      λ name d s t e. sym (ap (found_at name) e) ∙ rw ((text_eq_iff name name).1 refl) refl;
  blobs_kept = λ name d s t e. ((λ x c held. held), (λ x m held. held));
}

abbrev empty : References
empty name = failure (errno 2)

update_image_config-IsUpdated_example :
    IsUpdated plain
      (bytes "latest")
      (bytes "config")
      (bytes "manifest")
      (update_image_config plain (bytes "latest") (bytes "config") (bytes "manifest") empty).1
unfolding update_image_config
update_image_config-IsUpdated_example =
    update_image_config-IsUpdated plain plain-IsLayout (bytes "latest") (bytes "config")
      (bytes "manifest") empty _ refl
