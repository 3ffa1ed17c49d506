-- ===== src/Tests/Rounds.antt =====
-- A molecule that is mounted and unmounted on a machine with one layout of its mount table.
use atomfs.Device.{get_backing_device, maybe_cleanup_backing_device}
use atomfs.Verity.{confirm_hash, check_answer, check_table, confirm_validity, check_status}
use atomfs.Molecule.Atoms.{
  mount_underlying_atoms, mount_atoms, mount_atom, require_verity, root_hash_of, confirm_mounted,
}
use atomfs.Base.{
  List, ℕ, ap, ◌∙◌, Bool, ◌≡◌, refl, sym, subst, Bool-cases, [], ◌∷◌, ◌++◌, All, arith, inl, inr,
  if◌then◌else◌,
}
use atomfs.Text.{
  Bytes, bytes, text_eq, text_eq_iff, split, split_by, join, fields, trim_suffix, has_prefix,
  replace_all, trim_prefix, trim_right,
}
use atomfs.FilePath.{is_abs, clean, resolve, abs, join_path, base}
use atomfs.System.{
  unmount, close, Answer, answer, failure, errno, Call, Kernel, History, ok, read_file, mount,
  ◌>>=◌, ◌>>◌, ask_text, lift, known, pure, act, attempt, ask_info, is_not_exist, ask_number,
  always, act_ignoring, on_failure,
}
use atomfs.System.Trace.{Ends, Ends-mono, Ends-value}
use atomfs.Mountinfo.{
  Mount, parse_mounts, parse_lines, parse_line, parse_fields, scan_fields, scan_lines, after_dash,
  find_mount, get_overlay_dirs, find_lowerdir,
}
use atomfs.Host.{
  get_mount_ns_name, namespace_number, runtime_dir, replace_path_separators, path_exists,
  ensure_dir, am_host_root, uidmap_is_host,
}
use atomfs.Molecule.{
  metadata_path, mounted_atoms_path, make_lock, advisory_lock_path, annotation_of, write_to_file,
}
use atomfs.Molecule.Overlay.{
  overlay_lower_dirs, targets_of, with_workaround, overlay_args, mount_overlay,
}
use atomfs.Molecule.Overlay.Options.{IsPlain}
use atomfs.Molecule.Places.{IsSteady}
use atomfs.Molecule.Mounting.{mount_molecule, mount_locked, mount_all, returned, mount_top}
use atomfs.Molecule.Mounting.Whole.{IsMounted}
use atomfs.Molecule.Unmounting.{
  umount_with_metadir, umount_locked, find_underlying, abs_all, unmount_all, unmount_atoms,
  is_skipped, unmount_atom, is_used, remove_metadata,
}
use atomfs.Molecule.Unmounting.Order.{is_granted, changes, kept, then_unmounted}
use atomfs.Molecule.Unmounting.Whole.{IsRooted}
use atomfs.Molecule.Cycle.{ShowsOverlay, mount-umount_with_metadir}
use atomfs.Tests.Data.{setup, molecule, told}
use atomfs.Tests.Images.{ready}

abbrev image_dir : Bytes
image_dir = bytes "/run/atomfs/meta/4026531840/mnt/mounts/f00d"

abbrev workaround : Bytes
workaround = bytes "/run/atomfs/meta/4026531840/mnt/mounts/workaround"

abbrev option : Bytes
option = bytes "lowerdir=" ++ (image_dir ++ (bytes ":" ++ workaround))

abbrev options : Bytes
options = option ++ bytes ",index=off,xino=on,userxattr"

-- The machine grants a mount with these options only.
abbrev grants : Call → Answer (Unit {0})
grants (mount s d t f args) = if text_eq args options then answer tt else failure (errno 22)
grants c = answer tt

abbrev granting : Kernel
granting = record ready { acts = λ _ c. grants c }

abbrev image_line : Bytes
image_line =
    bytes "40 30 0:50 / " ++ (image_dir ++ bytes " ro - squashfs /dev/mapper/f00d-verity ro\n")

abbrev overlay_line : Bytes
overlay_line = bytes "41 30 0:51 / /mnt rw - overlay overlay rw," ++ (option ++ bytes ",xino=on\n")

-- Its mount table has the atom, the overlay from its mount to its unmount, and nothing after the
-- second unmount.
abbrev table_text : List Call → Bytes
table_text (mount _ _ _ _ _ ∷ _) = image_line ++ overlay_line
table_text (unmount _ ∷ unmount _ ∷ _) = []
table_text _ = image_line

abbrev tells : List Call → Call → Answer Bytes
tells cs (read_file p) =
    if text_eq p (bytes "/proc/self/mountinfo")
    then answer (table_text cs)
    else answer (bytes "0 0 4294967295\n")
tells cs c = told c

abbrev showing : Kernel
showing = record granting { tells_text = λ h c. tells (changes granting h) c }

-- The same with one table.
abbrev showing_table : List Call → Kernel
showing_table cs = record granting { tells_text = λ _ c. tells cs c }

abbrev overlay : Mount
overlay = record {
  source = bytes "overlay";
  target = bytes "/mnt";
  fs_type = bytes "overlay";
  opts = bytes "rw" ∷ option ∷ bytes "xino=on" ∷ [];
}

abbrev image : Mount
image = record {
  source = bytes "/dev/mapper/f00d-verity";
  target = image_dir;
  fs_type = bytes "squashfs";
  opts = bytes "ro" ∷ [];
}

granted :
    (args : Bytes)
    → grants (mount (bytes "overlay") (bytes "/mnt") (bytes "overlay") 0 args) ≡ answer tt
    → options ≡ args
granted args a = elim (Bool-cases (text_eq args options)) [
  | inl e ↦ sym ((text_eq_iff args options).0 e)
  | inr e ↦ absurd (no_failure (subst (λ b. result b ≡ answer tt) e a))
]
  where
    result : Bool → Answer (Unit {0})
    result b = if b then answer tt else failure (errno 22)

    no_failure : ◌≡◌ {A = Answer (Unit {0})} (failure (errno 22)) (answer tt) → ⊥
    no_failure f = cc f

table :
    (args : Bytes) (cs : List Call) (g : History)
    → changes showing g ≡ mount (bytes "overlay") (bytes "/mnt") (bytes "overlay") 0 args ∷ cs
    → (parse_mounts showing g).0 ≡ ok (image ∷ overlay ∷ [])
unfolding parse_mounts parse_lines parse_line parse_fields scan_fields scan_lines split split_by
    fields ◌>>=◌ ask_text lift text_eq trim_suffix after_dash
table args cs g e =
    subst (λ ds. (parse_mounts (showing_table ds) []).0 ≡ ok (image ∷ overlay ∷ [])) (sym e) refl

overlay-ShowsOverlay :
    (args : Bytes) (fd : ℕ) (h : History)
    → grants (mount (bytes "overlay") (bytes "/mnt") (bytes "overlay") 0 args) ≡ answer tt
    → ShowsOverlay showing
        (bytes "/mnt")
        (image_dir ∷ workaround ∷ [])
        args
        (close fd ∷ mount (bytes "overlay") (bytes "/mnt") (bytes "overlay") 0 args ∷ h)
unfolding split join has_prefix text_eq
overlay-ShowsOverlay args fd h a = record {
  mounts = image ∷ overlay ∷ [];
  table = λ g e. table args (changes showing h) g (
      e
      ∙ ap
          (λ x.
            if is_granted x
            then mount (bytes "overlay") (bytes "/mnt") (bytes "overlay") 0 args ∷ changes showing h
            else changes showing h)
          a);
  shown = record {
    front = image ∷ [];
    entry = overlay;
    back = [];
    listed = refl;
    first = (refl, tt);
    fs_type = refl;
    target = refl;
    args = options;
    lower = inl refl;
    option = option;
    given = (_, refl);
    before = bytes "rw" ∷ [];
    after = bytes "xino=on" ∷ [];
    none_before = (refl, tt);
    opts = refl;
  };
  same = granted args a;
}

showing-IsSteady : IsSteady showing molecule (bytes "/run/atomfs/meta/4026531840/mnt")
unfolding metadata_path get_mount_ns_name namespace_number runtime_dir replace_path_separators abs
    join_path clean resolve is_abs join split split_by replace_all text_eq ◌>>=◌ ask_text lift known
    pure
showing-IsSteady h =
    Ends-mono _
      (Ends-value (metadata_path molecule) showing h
        (bytes "/run/atomfs", bytes "/run/atomfs/meta/4026531840/mnt") refl)
      λ paths h' e. ap (λ (p : Bytes × Bytes). p.1) e

rooted : All IsRooted (bytes "/mnt" ∷ image_dir ∷ workaround ∷ [])
unfolding is_abs clean resolve split join
rooted = ((refl, refl), ((refl, refl), ((refl, refl), tt)))

plain : All IsPlain (bytes "/mnt" ∷ image_dir ∷ workaround ∷ [])
plain = ground arith

mount-umount_with_metadir_example :
    Ends
      (mount_molecule setup molecule (bytes "/mnt") >> umount_with_metadir (bytes "/mnt") [])
      showing
      []
      (λ _ h'.
        let mounted = (mount_molecule setup molecule (bytes "/mnt") showing []).1 in
        IsMounted showing molecule (bytes "/run/atomfs/meta/4026531840/mnt") (bytes "/mnt") mounted
        × (changes showing h'
            ≡ then_unmounted
                (unmount (bytes "/mnt") ∷ changes showing mounted)
                (kept (bytes "/mnt") (image_dir ∷ workaround ∷ []))))
unfolding join_path clean is_abs join resolve split
mount-umount_with_metadir_example =
    mount-umount_with_metadir setup molecule (bytes "/mnt") image_dir (workaround ∷ []) showing
      rooted plain _ showing-IsSteady refl (λ args fd h l a. overlay-ShowsOverlay args fd h a) [] []

round_runs :
    ((mount_molecule setup molecule (bytes "/mnt") >> umount_with_metadir (bytes "/mnt") []) showing
      []).0
    ≡ ok tt
unfolding mount_molecule ◌>>=◌ metadata_path get_mount_ns_name ask_text lift namespace_number abs
    is_abs pure runtime_dir known replace_path_separators clean path_exists attempt ask_info text_eq
    join_path join resolve split replace_all is_not_exist ensure_dir act make_lock
    advisory_lock_path ask_number always act_ignoring mount_locked overlay_lower_dirs targets_of
    mounted_atoms_path with_workaround on_failure mount_all mount_underlying_atoms mount_atoms
    mount_atom require_verity root_hash_of annotation_of am_host_root uidmap_is_host trim_suffix
    fields parse_mounts parse_lines scan_lines parse_line parse_fields scan_fields after_dash
    find_mount confirm_mounted confirm_hash check_answer check_table confirm_validity check_status
    returned mount_top write_to_file overlay_args mount_overlay umount_with_metadir umount_locked
    find_underlying get_overlay_dirs find_lowerdir abs_all trim_prefix unmount_all unmount_atoms
    is_skipped base trim_right unmount_atom get_backing_device is_used remove_metadata
    maybe_cleanup_backing_device
round_runs = refl
