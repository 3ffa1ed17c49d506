-- ===== src/Extract/Policy/Single.antt =====
-- ExtractSingleSquash and ExtractSingleErofs of pkg/squashfs/squashfs.go and pkg/erofs/erofs.go:
-- extraction by the policy of the process.
use atomfs.Base.{◌≡◌, refl, true, false, Option, none, some, ◌∷◌}
use atomfs.Text.{Bytes, bytes}
use atomfs.FilePath.{is_abs, clean}
use atomfs.System.{
  Answer, answer, failure, History, Kernel, Exec, pure, known, ◌>>=◌, attempt, mkdir_all,
}
use atomfs.System.Trace.{Ends, Ends-pure, Ends-bind, Ends-attempt, Ends-value}
use atomfs.MediaType.{Filesystem, squashfs, erofs}
use atomfs.Fuse.{FuseInfo}
use atomfs.Extract.{Extractor, Extractors, squash_extractors, erofs_extractors}
use atomfs.Extract.Policy.{ExtractPolicy, policy_names, new_extract_policy, extract_policy}
use atomfs.Extract.Policy.Make.{AllPlaced, new_extract_policy-AllPlaced}
use atomfs.Extract.Policy.Choice.{IsSettled, IsFirst, Settles, extract_policy-Settles}

-- `PolicyEnvName`
abbrev pub policy_env_name : Filesystem → Bytes
policy_env_name squashfs = bytes "STACKER_SQUASHFS_EXTRACT_POLICY"
policy_env_name erofs = bytes "STACKER_EROFS_EXTRACT_POLICY"

-- `DefPolicies`
abbrev pub def_policies : Filesystem → Bytes
def_policies squashfs = bytes "kmount squashfuse unsquashfs"
def_policies erofs = bytes "kmount erofsfuse fsck.erofs"

abbrev pub extractors_of : Filesystem → FuseInfo → Extractors
extractors_of squashfs info = squash_extractors info
extractors_of erofs info = erofs_extractors info

module _ (fs : Filesystem) (info : FuseInfo) where
  -- What `once.Do` leaves in `exPolInfo`: the policy or the error.
  abbrev pub process_policy : Option (Answer ExtractPolicy) → Exec (Answer ExtractPolicy)
  process_policy (some known_policy) = pure known_policy
  process_policy none = do
    val ← known (λ k. k.env (policy_env_name fs))
    attempt (new_extract_policy (extractors_of fs info) (policy_names (def_policies fs) val))

  abbrev pub extract_with :
      Bytes → Bytes → Answer ExtractPolicy → Exec (Answer (Unit {0}) × Answer ExtractPolicy)
  extract_with img extract_dir (failure e) = pure (failure e, failure e)
  extract_with img extract_dir (answer p) = do
    called ← extract_policy (extractors_of fs info) img extract_dir p
    pure (called.0, answer called.1)

  -- The error, and what `exPolInfo` holds afterwards.
  unfoldable pub extract_single :
      Bytes
      → Bytes
      → Option (Answer ExtractPolicy)
      → Exec (Answer (Unit {0}) × Answer ExtractPolicy)
  extract_single img extract_dir ex_pol_info = do
    made ← process_policy ex_pol_info
    extract_with img extract_dir made

  module _ (img dir : Bytes) (k : Kernel) (h : History) (rooted : is_abs dir ≡ true)
      (made : (g : History) → k.acts g (mkdir_all dir) ≡ answer tt) where
    -- What the first call of a process leaves when it succeeds.
    abbrev pub IsChosen : Answer ExtractPolicy → Type 0
    IsChosen q =
        (p p' : ExtractPolicy) × (e : Extractor) × (q ≡ answer p')
        × AllPlaced (extractors_of fs info) p.excuses
            (policy_names (def_policies fs) (k.env (policy_env_name fs))) p.extractors
        × IsSettled p'
        × ((g : History) × IsFirst (extractors_of fs info) img (clean dir) k g p' p.extractors e)

    abbrev Fresh : ExtractPolicy → Type 0
    Fresh p =
        AllPlaced (extractors_of fs info) p.excuses
          (policy_names (def_policies fs) (k.env (policy_env_name fs))) p.extractors
        × (p.extractor ≡ none)
        × (p.initialized ≡ false)

    chosen :
        (a : Answer ExtractPolicy) (h₁ : History)
        → ((p : ExtractPolicy) → a ≡ answer p → Fresh p)
        → Ends (extract_with img dir a) k h₁ (λ r _. r.0 ≡ answer tt → IsChosen r.1)
    chosen (failure x) h₁ f = Ends-pure _ (λ e. absurd (cc e))
    chosen (answer p) h₁ f =
        let (placed, unset, new) = f p refl in
        Ends-bind
          (λ r _. Settles (extractors_of fs info) img (clean dir) k (mkdir_all dir ∷ h₁) p r) _ _
          (extract_policy-Settles (extractors_of fs info) img dir k h₁ rooted (made h₁) p new)
          λ called h₂ (settled, first). Ends-pure _ λ e.
            let (x, is_first) = first e in
            (p, called.1, x, refl, placed, settled, (mkdir_all dir ∷ h₁, is_first))

    -- A first call that succeeds, for an absolute directory that can be made at any time, has chosen
    -- the first extractor that works, of those that are available among the names that the
    -- environment gives, in their order: its mount at the directory succeeded after those of the
    -- ones before it failed.
    pub extract_single-IsChosen :
        Ends (extract_single img dir none) k h (λ r _. r.0 ≡ answer tt → IsChosen r.1)
    unfolding extract_single known
    extract_single-IsChosen =
        Ends-bind (λ a _. (p : ExtractPolicy) → a ≡ answer p → Fresh p) _ _
          (Ends-bind (λ val _. val ≡ k.env (policy_env_name fs)) _ _
            (Ends-value (known (λ k. k.env (policy_env_name fs))) k h _ refl)
            λ val h₁ e.
              rw e (Ends-attempt _ (new_extract_policy-AllPlaced (extractors_of fs info) _ k h₁)))
          λ a h₁ f. chosen a h₁ f
