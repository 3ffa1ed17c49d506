-- ===== src/Molecule/Steady.antt =====
-- A process whose namespace and working directory stay has one metadata path for each molecule:
-- `MetadataPath` of pkg/molecule/molecule.go.
use atomfs.Base.{◌≡◌, refl, sym, ap, ◌∙◌, [], Bool-cases, inl, inr}
use atomfs.Text.{Bytes, bytes}
use atomfs.FilePath.{is_abs, abs}
use atomfs.System.{
  Answer, Result, ok, err, panic, History, Kernel, Exec, ◌>>=◌, continue, ask_text, readlink, getwd,
  known, pure, lift,
}
use atomfs.Host.{get_mount_ns_name, runtime_dir}
use atomfs.Molecule.{Molecule, metadata_path}
use atomfs.Molecule.Places.{IsSteady}

-- The namespace and the working directory of the process are told the same at any time.
abbrev pub IsStill : Kernel → Type 0
IsStill k =
    (link : Answer Bytes) × (wd : Answer Bytes) × ((h : History)
      → k.tells_text h (readlink (bytes "/proc/self/ns/mnt")) ≡ link)
    × ((h : History) → k.tells_text h getwd ≡ wd)

-- The outcome does not depend on what was called before.
abbrev IsConstant {ℓ} : {A : Type ℓ} → Kernel → Exec A → Type ℓ
IsConstant k x = (g h : History) → (x k g).0 ≡ (x k h).0

module _ {A B : Type 0} (k : Kernel) (f : A → Exec B)
    (constant : (a : A) → IsConstant k (f a)) where
  continue-constant :
      (r : Result A) (g h : History) → (continue f k (r, g)).0 ≡ (continue f k (r, h)).0
  continue-constant (ok a) g h = constant a g h
  continue-constant (err x) g h = refl
  continue-constant panic g h = refl

  bind-IsConstant : (x : Exec A) → IsConstant k x → IsConstant k (x >>= f)
  unfolding ◌>>=◌
  bind-IsConstant x c g h =
      ap (λ r. (continue f k (r, (x k g).1)).0) (c g h)
      ∙ continue-constant (x k h).0 (x k g).1 (x k h).1

ask_text-IsConstant :
    (c : _) (k : Kernel) (a : Answer Bytes)
    → ((h : History) → k.tells_text h c ≡ a)
    → IsConstant k (ask_text c)
unfolding ask_text
ask_text-IsConstant c k a s g h = rw (s g, s h) refl

abs-IsConstant : (p : Bytes) (k : Kernel) → IsStill k → IsConstant k (abs p)
unfolding abs pure
abs-IsConstant p k (link, wd, l, w) = elim (Bool-cases (is_abs p)) [
  | inl e ↦ rw e (λ g h. refl)
  | inr e ↦ rw e (bind-IsConstant k _ (λ d g h. refl) _ (ask_text-IsConstant getwd k wd w))
]

lift-IsConstant : {A : Type 0} (r : Result A) (k : Kernel) → IsConstant k (lift r)
unfolding lift
lift-IsConstant r k g h = refl

pure-IsConstant : {A : Type 0} (a : A) (k : Kernel) → IsConstant k (pure a)
unfolding pure
pure-IsConstant a k g h = refl

get_mount_ns_name-IsConstant : (k : Kernel) → IsStill k → IsConstant k get_mount_ns_name
unfolding get_mount_ns_name
get_mount_ns_name-IsConstant k (link, wd, l, w) =
    bind-IsConstant k _ (λ v. lift-IsConstant _ k) _ (ask_text-IsConstant _ k link l)

runtime_dir-IsConstant : (dir : Bytes) (k : Kernel) → IsConstant k (runtime_dir dir)
unfolding runtime_dir known
runtime_dir-IsConstant dir k g h = refl

metadata_path-IsConstant : (m : Molecule) (k : Kernel) → IsStill k → IsConstant k (metadata_path m)
unfolding metadata_path
metadata_path-IsConstant m k s =
    bind-IsConstant k _
      (λ ns.
        bind-IsConstant k _
          (λ t.
            bind-IsConstant k _
              (λ r. bind-IsConstant k _ (λ flat. pure-IsConstant _ k) _ (lift-IsConstant _ k)) _
              (runtime_dir-IsConstant _ k))
          _ (abs-IsConstant m.config.target k s))
      _ (get_mount_ns_name-IsConstant k s)

path_of : Result (Bytes × Bytes) → Bytes
path_of (ok paths) = paths.1
path_of (err x) = []
path_of panic = []

pub IsStill-IsSteady :
    (k : Kernel) (m : Molecule) → IsStill k → (metadir : Bytes) × IsSteady k m metadir
unfolding path_of
IsStill-IsSteady k m s = (
  path_of (metadata_path m k []).0,
  λ h. record { at = λ paths e. ap path_of (sym e ∙ metadata_path-IsConstant m k s h []) },
)
