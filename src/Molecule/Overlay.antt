-- ===== src/Molecule/Overlay.antt =====
-- `overlayLowerDirs` and the options of the overlay, in pkg/molecule/molecule.go.
pub mod Options
use atomfs.Base.{ℕ, Bool, true, false, not, List, [], ◌∷◌, ◌++◌, ltb, if◌then◌else◌, length}
use atomfs.Text.{Bytes, bytes, join, is_empty}
use atomfs.FilePath.{join_path}
use atomfs.System.{Exec, pure, fail, ◌>>=◌, ◌>>◌, act, mkdir_all, mount, too_many_lower_dirs}
use atomfs.Host.{ensure_dir}
use atomfs.Molecule.{Descriptor, Molecule, MountOciOpts, mounted_atoms_path}

unfoldable pub targets_of : Molecule → List Descriptor → Exec (List Bytes)
targets_of m [] = pure []
targets_of m (a ∷ rest) = do
  target ← mounted_atoms_path m (a.encoded ∷ [])
  targets ← targets_of m rest
  pure (target ∷ targets)

-- A single lower directory gets an empty one beside it.
unfoldable pub with_workaround : Molecule → List Bytes → Exec (List Bytes)
with_workaround m (dir ∷ []) = do
  workaround ← mounted_atoms_path m (bytes "workaround" ∷ [])
  act (mkdir_all workaround)
  pure (dir ∷ workaround ∷ [])
with_workaround m dirs = pure dirs

-- `overlayLowerDirs`
unfoldable pub overlay_lower_dirs : Molecule → Exec Bytes
overlay_lower_dirs m = do
  dirs ← targets_of m m.atoms
  all_dirs ← with_workaround m dirs
  pure (join (bytes ":") all_dirs)

abbrev pub overlay_mount_options : Bytes
overlay_mount_options = bytes "index=off,xino=on,userxattr"

abbrev pub persist_meta_path : MountOciOpts → Bytes → Bytes
persist_meta_path c metadir =
    if is_empty c.writeable_overlay_path then metadir else c.writeable_overlay_path

-- The options of a read-only overlay.
abbrev pub read_only_args : Bytes → Bytes
read_only_args lower = bytes "lowerdir=" ++ (lower ++ (bytes "," ++ overlay_mount_options))

-- The options of a writeable overlay at `dest`, which is a lower directory itself.
abbrev pub writeable_args : Bytes → Bytes → Bytes → Bytes → Bytes
writeable_args dest lower upperdir workdir =
    bytes "lowerdir="
    ++ (dest
        ++ (bytes ":"
            ++ (lower
                ++ (bytes ",upperdir="
                    ++ (upperdir
                        ++ (bytes ",workdir="
                            ++ (workdir ++ (bytes "," ++ overlay_mount_options))))))))

-- The branch on `AddWriteableOverlay`.
unfoldable pub overlay_args : MountOciOpts → Bytes → Bytes → Bytes → Exec Bytes
overlay_args c metadir dest lower =
    if not c.add_writeable_overlay then pure (read_only_args lower) else do
      ensure_dir (join_path (metadir ∷ bytes "ro" ∷ []))
      let workdir = join_path (persist_meta_path c metadir ∷ bytes "work" ∷ [])
      ensure_dir workdir
      let upperdir = join_path (persist_meta_path c metadir ∷ bytes "persist" ∷ [])
      ensure_dir upperdir
      pure (writeable_args dest lower upperdir workdir)

-- The kernel takes 4096 bytes of options.
unfoldable pub mount_overlay : Bytes → Bytes → Exec (Unit {0})
mount_overlay dest args =
    if ltb 4096 (length args)
    then fail too_many_lower_dirs
    else act (mount (bytes "overlay") dest (bytes "overlay") 0 args)
