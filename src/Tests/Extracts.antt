-- ===== src/Tests/Extracts.antt =====
-- Extraction with a policy, and the making of images.
use atomfs.Base.{◌≡◌, refl, true, false, none, some, [], ◌∷◌}
use atomfs.Text.{Bytes, bytes}
use atomfs.System.{errno, Answer, answer, failure, ok, panic, Call, Kernel, History, mkdir_all}
use atomfs.System.Trace.{Ends}
use atomfs.FilePath.{is_abs, clean}
use atomfs.MediaType.{squashfs, erofs, new_from_media_type}
use atomfs.Exclude.{new_exclude_paths}
use atomfs.Fuse.{no_fuse}
use atomfs.Extract.{kernel, unpack, squash_extractors}
use atomfs.Extract.Policy.{ExtractPolicy, extract_policy, excuse_of}
use atomfs.Extract.Policy.Choice.{Settles, extract_policy-Settles}
use atomfs.Extract.Policy.Later.{extract_policy_poisoned}
use atomfs.Extract.Policy.Single.{extract_single, IsChosen, extract_single-IsChosen}
use atomfs.Extract.Race.Refinement.{Calls, extract_policy-Calls}
use atomfs.Make.{make_image}
use atomfs.Make.Temporary.{Gone, make_image-IsTidy}
use atomfs.Make.Outcome.{make_image-IsMountable}
use atomfs.Tests.Data.{machine}

abbrev image : Bytes
image = bytes "/oci/blobs/sha256/f00d"

abbrev target : Bytes
target = bytes "/mnt"

rooted : is_abs target ≡ true
unfolding is_abs
rooted = refl

abbrev unset : ExtractPolicy
unset = record {
  extractors = kernel ∷ unpack ∷ [];
  extractor = none;
  excuses = [];
  initialized = false;
}

extract_policy-Settles_example :
    Ends (extract_policy (squash_extractors no_fuse) image target unset) machine [] (λ r _.
      Settles
        (squash_extractors no_fuse)
        image
        (clean target)
        machine
        (mkdir_all target ∷ [])
        unset
        r)
extract_policy-Settles_example =
    extract_policy-Settles (squash_extractors no_fuse) image target machine [] rooted refl unset
      refl

extract_policy-Calls_example :
    Ends
      (extract_policy (squash_extractors no_fuse) image target unset)
      machine
      []
      (λ r _. Calls unset false r.1)
extract_policy-Calls_example =
    extract_policy-Calls (squash_extractors no_fuse) image target unset false machine []

-- A machine that cannot make the directory of the first call.
abbrev grudging : History → Call → Answer (Unit {0})
grudging [] _ = failure (errno 13)
grudging _ _ = answer tt

abbrev full : Kernel
full = record machine { acts = grudging }

extract_policy_poisoned_example :
    (extract_policy (squash_extractors no_fuse) image target unset full []
      ≡ (ok (failure (errno 13), record unset { initialized = true }), mkdir_all target ∷ []))
    × (extract_policy
          (squash_extractors no_fuse)
          image
          target
          (record unset { initialized = true })
          full
          (mkdir_all target ∷ [])
        ≡ (panic, mkdir_all target ∷ mkdir_all target ∷ []))
unfolding excuse_of
extract_policy_poisoned_example =
    extract_policy_poisoned (squash_extractors no_fuse) image target image target (errno 13) unset
      full [] (mkdir_all target ∷ []) refl refl refl rooted refl

extract_single-IsChosen_example :
    Ends (extract_single squashfs no_fuse image target none) machine [] (λ r _.
      r.0 ≡ answer tt → IsChosen squashfs no_fuse image target machine [] rooted (λ g. refl) r.1)
extract_single-IsChosen_example =
    extract_single-IsChosen squashfs no_fuse image target machine [] rooted (λ g. refl)

make_image-IsTidy_example :
    Gone machine []
      (make_image squashfs none
        (bytes "/tmp")
        (bytes "/root")
        (some new_exclude_paths)
        true
        machine
        []).1
make_image-IsTidy_example =
    make_image-IsTidy machine squashfs none (bytes "/tmp") (bytes "/root") (some new_exclude_paths)
      true []

make_image-IsMountable_example :
    Ends (make_image erofs none (bytes "/tmp") (bytes "/root") none false) machine [] (λ made _.
      (new_from_media_type made.media_type ≡ some erofs) × (false ≡ false → made.root_hash ≡ []))
make_image-IsMountable_example =
    make_image-IsMountable erofs none (bytes "/root") false machine (bytes "/tmp") none []
