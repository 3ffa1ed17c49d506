-- ===== src/Tests/Cycles.antt =====
-- A molecule from its mount to its unmount.
use atomfs.Device.{get_backing_device}
use atomfs.Host.{get_mount_ns_name, namespace_number, runtime_dir, replace_path_separators}
use atomfs.Molecule.{metadata_path, make_lock, advisory_lock_path}
use atomfs.Base.{◌≡◌, refl, [], ◌∷◌, inl, All, arith, List, ap}
use atomfs.Text.{
  Bytes, bytes, split, join, fields, split_by, text_eq, trim_suffix, has_prefix, trim_prefix,
  trim_right, replace_all,
}
use atomfs.FilePath.{is_abs, clean, resolve, resolve_step, abs, base, join_path}
use atomfs.System.{
  unmount, Answer, answer, Call, Kernel, History, ok, read_file, lift, ask_text, ◌>>=◌, pure, known,
  attempt, ask_number, always, act_ignoring, act,
}
use atomfs.System.Trace.{Ends, Ends-mono, Ends-value}
use atomfs.Mountinfo.{
  Mount, parse_mounts, parse_lines, parse_line, parse_fields, scan_fields, scan_lines, after_dash,
  get_overlay_dirs, find_lowerdir, find_mount,
}
use atomfs.Molecule.Overlay.{read_only_args}
use atomfs.Molecule.Overlay.Options.{IsPlain}
use atomfs.Molecule.Places.{IsSteady}
use atomfs.Molecule.Mounting.{mount_molecule}
use atomfs.Molecule.Mounting.Since.{Since}
use atomfs.Molecule.Mounting.Whole.{IsMounted, mount_molecule-IsMounted, mount_molecule-AllVerified}
use atomfs.Molecule.Atoms.Verified.{AllVerified}
use atomfs.Molecule.Unmounting.{
  umount_with_metadir, umount_locked, find_underlying, abs_all, unmount_all, unmount_atoms,
  is_skipped, unmount_atom, is_used, remove_metadata,
}
use atomfs.Molecule.Unmounting.Order.{changes, kept, then_unmounted}
use atomfs.Molecule.Unmounting.Whole.{IsRooted, Shows, umount_with_metadir-unmounted}
use atomfs.Tests.Data.{told, machine, setup, molecule}
use atomfs.Tests.Images.{ready, ready_root}

ready-IsSteady : IsSteady ready molecule (bytes "/run/atomfs/meta/4026531840/mnt")
unfolding metadata_path get_mount_ns_name namespace_number runtime_dir replace_path_separators abs
    join_path clean resolve is_abs join split split_by replace_all text_eq ◌>>=◌ ask_text lift known
    pure
ready-IsSteady h =
    Ends-mono _
      (Ends-value (metadata_path molecule) ready h
        (bytes "/run/atomfs", bytes "/run/atomfs/meta/4026531840/mnt") refl)
      λ paths h' e. ap (λ (p : Bytes × Bytes). p.1) e

mount_molecule-IsMounted_example :
    Ends
      (mount_molecule setup molecule (bytes "/mnt"))
      ready
      []
      (λ _ h. IsMounted ready molecule (bytes "/run/atomfs/meta/4026531840/mnt") (bytes "/mnt") h)
mount_molecule-IsMounted_example =
    mount_molecule-IsMounted setup molecule (bytes "/mnt") ready _ ready-IsSteady []

mount_molecule-AllVerified_example :
    Ends (mount_molecule setup molecule (bytes "/mnt")) ready [] (λ _ h.
      IsMounted ready molecule (bytes "/run/atomfs/meta/4026531840/mnt") (bytes "/mnt") h
      × ((h₀ : History) × (h₁ : History) × AllVerified setup molecule ready
            (bytes "/run/atomfs/meta/4026531840/mnt")
            molecule.atoms
            h₀
            h₁
          × Since h₁ h))
mount_molecule-AllVerified_example =
    mount_molecule-AllVerified setup molecule (bytes "/mnt") ready _ ready-IsSteady ready_root refl
      []

-- The machine with the overlay in its mount table.
abbrev shown : Call → Answer Bytes
shown (read_file p) = answer (
    bytes
      "40 30 0:50 / /mnt rw - overlay overlay rw,lowerdir=/a:/b,xino=on\n41 30 0:51 / /a ro - squashfs /dev/loop0 ro\n42 30 0:52 / /b ro - squashfs /dev/loop1 ro\n")
shown c = told c

abbrev mounted : Kernel
mounted = record machine { tells_text = λ _ c. shown c }

abbrev entry : Mount
entry = record {
  source = bytes "overlay";
  target = bytes "/mnt";
  fs_type = bytes "overlay";
  opts = bytes "rw" ∷ bytes "lowerdir=/a:/b" ∷ bytes "xino=on" ∷ [];
}

abbrev layer_at : Bytes → Bytes → Mount
layer_at target source = record {
  source = source;
  target = target;
  fs_type = bytes "squashfs";
  opts = bytes "ro" ∷ [];
}

abbrev layers : List Mount
layers =
    layer_at (bytes "/a") (bytes "/dev/loop0") ∷ layer_at (bytes "/b") (bytes "/dev/loop1") ∷ []

table : (g : History) → (parse_mounts mounted g).0 ≡ ok (entry ∷ layers)
unfolding parse_mounts parse_lines parse_line parse_fields scan_fields scan_lines split split_by
    fields ◌>>=◌ ask_text lift text_eq trim_suffix after_dash
table g = refl

entry-Shows : Shows (bytes "/mnt") (bytes "/a" ∷ bytes "/b" ∷ []) (entry ∷ layers)
unfolding split join has_prefix
entry-Shows = record {
  front = [];
  entry = entry;
  back = layers;
  listed = refl;
  first = tt;
  fs_type = refl;
  target = refl;
  args = read_only_args (bytes "/a:/b");
  lower = inl refl;
  option = bytes "lowerdir=/a:/b";
  given = (_, refl);
  before = bytes "rw" ∷ [];
  after = bytes "xino=on" ∷ [];
  none_before = (refl, tt);
  opts = refl;
}

rooted : All IsRooted (bytes "/mnt" ∷ bytes "/a" ∷ bytes "/b" ∷ [])
unfolding is_abs clean resolve resolve_step split join
rooted = ((refl, refl), ((refl, refl), ((refl, refl), tt)))

plain : All IsPlain (bytes "/mnt" ∷ bytes "/a" ∷ bytes "/b" ∷ [])
plain = ground arith

umount_with_metadir-unmounted_example :
    Ends (umount_with_metadir (bytes "/mnt") []) mounted [] (λ _ h'.
      changes mounted h'
      ≡ then_unmounted
          (unmount (bytes "/mnt") ∷ [])
          (kept (bytes "/mnt") (bytes "/a" ∷ bytes "/b" ∷ [])))
umount_with_metadir-unmounted_example =
    umount_with_metadir-unmounted (bytes "/mnt") (bytes "/a") (bytes "/b" ∷ []) mounted []
      (entry ∷ layers) rooted plain (λ g e. table g) entry-Shows []

umount_runs : (umount_with_metadir (bytes "/mnt") [] mounted []).0 ≡ ok tt
unfolding umount_with_metadir ◌>>=◌ abs is_abs pure metadata_path get_mount_ns_name ask_text lift
    namespace_number clean runtime_dir known replace_path_separators make_lock advisory_lock_path
    attempt ask_number always act_ignoring umount_locked act parse_mounts parse_lines scan_lines
    split parse_line parse_fields fields trim_suffix scan_fields text_eq after_dash find_underlying
    join resolve get_overlay_dirs find_lowerdir abs_all trim_prefix unmount_all unmount_atoms
    is_skipped base trim_right unmount_atom get_backing_device find_mount is_used remove_metadata
umount_runs = refl
