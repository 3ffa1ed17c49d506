-- ===== src/Molecule/Unmounting/Steps.antt =====
-- The steps around the unmounts, which unmount nothing themselves.
use atomfs.Base.{ℕ}
use atomfs.Text.{Bytes}
use atomfs.FilePath.{is_abs, abs}
use atomfs.System.{Answer, answer, failure}
use atomfs.System.Keeps.{
  Keeps, Keeps-pure, Keeps-fail, Keeps-lift, Keeps-known, Keeps-if, Keeps-attempt, Keeps-bind,
  Keeps-act, Keeps-ask_text, Keeps-ask_number,
}
use atomfs.Host.{get_mount_ns_name, runtime_dir}
use atomfs.Molecule.{
  Molecule, metadata_path, make_lock, or_backup, or_lock_failed, advisory_lock_path,
}
use atomfs.Molecule.Unmounting.{remove_metadata}
use atomfs.Molecule.Unmounting.Order.{Same, Quiet}

pub get_mount_ns_name-Quiet : Quiet get_mount_ns_name
unfolding Quiet get_mount_ns_name Same
get_mount_ns_name-Quiet k₀ u = Keeps-bind _ _ (Keeps-ask_text _ (λ h p. p)) λ val. Keeps-lift _

pub runtime_dir-Quiet : (d : Bytes) → Quiet (runtime_dir d)
unfolding Quiet runtime_dir
runtime_dir-Quiet d k₀ u = Keeps-known _

pub abs-Quiet : (p : Bytes) → Quiet (abs p)
unfolding Quiet abs Same
abs-Quiet p k₀ u =
    Keeps-if (is_abs p) _ _ (Keeps-pure _)
      (Keeps-bind _ _ (Keeps-ask_text _ (λ h q. q)) λ wd. Keeps-pure _)

pub metadata_path-Quiet : (m : Molecule) → Quiet (metadata_path m)
unfolding Quiet metadata_path
metadata_path-Quiet m k₀ u = Keeps-bind _ _ (get_mount_ns_name-Quiet k₀ u) λ ns.
    Keeps-bind _ _ (abs-Quiet _ k₀ u) λ target.
      Keeps-bind _ _ (runtime_dir-Quiet _ k₀ u)
        λ d. Keeps-bind _ _ (Keeps-lift _) λ flat. Keeps-pure _

pub make_lock-Quiet : (dir : Bytes) → Quiet (make_lock dir)
unfolding Quiet make_lock advisory_lock_path Same
make_lock-Quiet dir k₀ u =
    Keeps-bind _ _ (Keeps-known _)
      λ path. Keeps-bind _ _ (Keeps-attempt _ (Keeps-ask_number _ (λ h p. p))) backup
  where
    opened : (made : Answer ℕ) → Keeps (Same k₀ u) (or_lock_failed made)
    opened (answer fd) = Keeps-pure _
    opened (failure e) = Keeps-fail _

    backup : (made : Answer ℕ) → Keeps (Same k₀ u) (or_backup dir made)
    backup (answer fd) = Keeps-pure _
    backup (failure e) = Keeps-bind _ _ (Keeps-attempt _ (Keeps-ask_number _ (λ h p. p))) opened

pub remove_metadata-Quiet : (dest d : Bytes) → Quiet (remove_metadata dest d)
unfolding Quiet remove_metadata Same
remove_metadata-Quiet dest d k₀ u = Keeps-bind _ _ (get_mount_ns_name-Quiet k₀ u) λ ns.
    Keeps-bind _ _ (runtime_dir-Quiet _ k₀ u)
      λ again. Keeps-bind _ _ (Keeps-lift _) λ flat. Keeps-act _ (λ h p. p)
