-- ===== src/Extract/Policy.antt =====
-- ExtractPolicy of pkg/squashfs/squashfs.go and pkg/erofs/erofs.go: which extractor a policy
-- settles on, and what it does from then on.
pub mod Make
pub mod Choice
pub mod Later
pub mod Single
use atomfs.Base.{ℕ, Bool, true, false, not, Option, none, some, List, [], ◌∷◌, ◌++◌, if◌then◌else◌}
use atomfs.Text.{Bytes, bytes, text_eq, is_empty, fields}
use atomfs.FilePath.{abs}
use atomfs.System.{
  Error, Answer, answer, failure, Exec, pure, fail, crash, known, ◌>>=◌, ◌>>◌, attempt, act,
  mkdir_all, unknown_extractor, no_policy, no_extractors, none_suitable,
}
use atomfs.Extract.{Extractor, kernel, fuse, unpack, Extractors}

pub record ExtractPolicy : Type 0 where
  pub extractors : List Extractor
  pub extractor : Option Extractor
  pub excuses : List (Bytes × Error)
  pub initialized : Bool

abbrev pub init_name : Bytes
init_name = bytes "init"

unfoldable pub excuse_of : Bytes → List (Bytes × Error) → Option Error
excuse_of name [] = none
excuse_of name ((n, e) ∷ more) =
    let rest = excuse_of name more in if text_eq n name then some e else rest

-- `policy.Excuses[name] = e`
abbrev pub excuse : Bytes → Error → ExtractPolicy → ExtractPolicy
excuse name e p = record p { excuses = (name, e) ∷ p.excuses }

-- What `ExtractSingleSquash` and `ExtractSingleErofs` read of the environment.
unfoldable pub policy_names : Bytes → Bytes → List Bytes
policy_names default val = fields (if is_empty val then default else val)

module _ (ex : Extractors) where
  -- `byName`
  unfoldable pub by_name : Bytes → Option Extractor
  by_name n =
      if text_eq n (ex.name kernel)
      then some kernel
      else if text_eq n (ex.name fuse)
      then some fuse
      else if text_eq n (ex.name unpack)
      then some unpack
      else none

  abbrev pub with_excuse : Bytes → Extractor → ExtractPolicy → Answer (Unit {0}) → ExtractPolicy
  with_excuse n e p (failure x) = excuse n x p
  with_excuse n e p (answer _) = record p { extractors = p.extractors ++ (e ∷ []) }

  abbrev pub add_found : Bytes → ExtractPolicy → Option Extractor → Exec ExtractPolicy
  add_found n p none = fail unknown_extractor
  add_found n p (some e) = do
    available ← attempt (ex.is_available e)
    pure (with_excuse n e p available)

  -- The loop of `NewExtractPolicy`.
  unfoldable pub add_names : List Bytes → ExtractPolicy → Exec ExtractPolicy
  add_names [] p = pure p
  add_names (n ∷ ns) p = add_found n p (by_name n) >>= λ p'. add_names ns p'

  -- `NewExtractPolicy`
  unfoldable pub new_extract_policy : List Bytes → Exec ExtractPolicy
  new_extract_policy args =
      add_names args
        (record { extractors = []; extractor = none; excuses = []; initialized = false })

  -- A call's error and the policy that it leaves.
  abbrev pub Called : Type 0
  Called = Answer (Unit {0}) × ExtractPolicy

  abbrev pub after_mount :
      Extractor → ExtractPolicy → (ExtractPolicy → Exec Called) → Answer (Unit {0}) → Exec Called
  after_mount e p rest (answer _) = pure (answer tt, record p { extractor = some e })
  after_mount e p rest (failure x) = rest (excuse (ex.name e) x p)

  -- The loop over `policy.Extractors`, and what follows it.
  unfoldable pub select_extractor : Bytes → Bytes → List Extractor → ExtractPolicy → Exec Called
  select_extractor img fdest [] p = pure (failure none_suitable, excuse init_name none_suitable p)
  select_extractor img fdest (e ∷ es) p = do
    done ← attempt (ex.mount e img fdest)
    after_mount e p (λ p'. select_extractor img fdest es p') done

  abbrev pub initialize : Bytes → Bytes → ExtractPolicy → List Extractor → Exec Called
  initialize img fdest p [] = pure (failure no_extractors, excuse init_name no_extractors p)
  initialize img fdest p (e ∷ es) = select_extractor img fdest (e ∷ es) p

  -- A call of a nil interface is a panic.
  abbrev pub mount_chosen : Bytes → Bytes → ExtractPolicy → Option Extractor → Exec Called
  mount_chosen img fdest p none = crash
  mount_chosen img fdest p (some e) = do done ← attempt (ex.mount e img fdest); pure (done, p)

  abbrev pub use_chosen : Bytes → Bytes → ExtractPolicy → Option Error → Exec Called
  use_chosen img fdest p (some x) = pure (failure x, p)
  use_chosen img fdest p none = mount_chosen img fdest p p.extractor

  abbrev pub at_dir : Bytes → ExtractPolicy → Answer Bytes → Exec Called
  at_dir img p (failure x) = pure (failure x, p)
  at_dir img p (answer fdest) =
      if p.initialized
      then use_chosen img fdest p (excuse_of init_name p.excuses)
      else initialize img fdest p p.extractors

  abbrev pub made_dir : Bytes → Bytes → ExtractPolicy → Answer (Unit {0}) → Exec Called
  made_dir img extract_dir p (failure x) = pure (failure x, p)
  made_dir img extract_dir p (answer _) = do fdest ← attempt (abs extract_dir); at_dir img p fdest

  -- `ExtractSingleSquashPolicy`, `ExtractSingleErofsPolicy`, by one goroutine. The deferred function
  -- marks the policy as initialized on every path.
  unfoldable pub extract_policy : Bytes → Bytes → ExtractPolicy → Exec Called
  extract_policy img extract_dir p = do
    made ← attempt (act (mkdir_all extract_dir))
    called ← made_dir img extract_dir p made
    pure (called.0, record called.1 { initialized = true })

  -- The pointer that the two functions take: they refuse a nil policy.
  abbrev pub extract_given :
      Bytes → Bytes → Option ExtractPolicy → Exec (Answer (Unit {0}) × Option ExtractPolicy)
  extract_given img extract_dir none = pure (failure no_policy, none)
  extract_given img extract_dir (some p) = do
    called ← extract_policy img extract_dir p
    pure (called.0, some called.1)
