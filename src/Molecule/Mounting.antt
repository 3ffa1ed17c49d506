-- ===== src/Molecule/Mounting.antt =====
-- `Mount` of pkg/molecule/molecule.go.
pub mod Outcome
pub mod Since
pub mod Whole
use atomfs.Base.{ℕ, Bool, true, false, not, ◌&&◌, List, [], ◌∷◌, ◌++◌, if◌then◌else◌}
use atomfs.Text.{Bytes, bytes, is_empty}
use atomfs.FilePath.{join_path}
use atomfs.System.{
  Answer, answer, failure, Exec, pure, fail, ◌>>=◌, ◌>>◌, act, act_ignoring, always, on_failure,
  metadir_exists, remove_all, flock, close,
}
use atomfs.Host.{ensure_dir, path_exists}
use atomfs.Molecule.{Molecule, MountOciOpts, metadata_path, make_lock, write_to_file}
use atomfs.Molecule.Atoms.{mount_underlying_atoms, cleanup_atoms}
use atomfs.Layer.{Setup}
use atomfs.Molecule.Overlay.{overlay_lower_dirs, overlay_args, mount_overlay}

-- The last deferred function removes `WriteableOverlayPath` where that is empty.
unfoldable pub undo_writeable : MountOciOpts → Exec (Unit {0})
undo_writeable c =
    if c.add_writeable_overlay && is_empty c.writeable_overlay_path
    then act_ignoring (remove_all c.writeable_overlay_path)
    else pure tt

-- `return err` of the atoms' error.
unfoldable pub returned : Answer (Unit {0}) → Exec (Unit {0})
returned (answer _) = pure tt
returned (failure e) = fail e

-- The overlay over the atoms. The directories that `overlay_args` makes come before the deferred
-- function of `undo_writeable`.
unfoldable pub mount_top : Molecule → Bytes → Bytes → Bytes → Exec (Unit {0})
mount_top m metadir dest lower = do
  write_to_file m.config (join_path (metadir ∷ bytes "config.json" ∷ []))
  args ← overlay_args m.config metadir dest lower
  on_failure (mount_overlay dest args) (undo_writeable m.config)

-- The atoms' error is returned before their cleanup is deferred.
unfoldable pub mount_all : Setup → Molecule → Bytes → Bytes → Bytes → Exec (Unit {0})
mount_all setup m metadir dest lower = do
  atoms ← mount_underlying_atoms setup m
  returned atoms.0
  on_failure (mount_top m metadir dest lower) (cleanup_atoms atoms.1)

-- What `Mount` does with the lock file open.
unfoldable pub mount_locked : Setup → Molecule → Bytes → Bytes → ℕ → Exec (Unit {0})
mount_locked setup m metadir dest fd = do
  act (flock fd)
  lower ← overlay_lower_dirs m
  on_failure (mount_all setup m metadir dest lower) (act_ignoring (remove_all metadir))

-- `Molecule.Mount`
unfoldable pub mount_molecule : Setup → Molecule → Bytes → Exec (Unit {0})
mount_molecule setup m dest = do
  paths ← metadata_path m
  exists ← path_exists paths.1
  if exists then fail metadir_exists else do
    ensure_dir paths.1
    fd ← make_lock paths.1
    always (mount_locked setup m paths.1 dest fd) (act_ignoring (close fd))
