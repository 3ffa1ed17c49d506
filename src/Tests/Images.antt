-- ===== src/Tests/Images.antt =====
-- `atomfs mount` of an image, run from the arguments on.
use atomfs.Base.{◌≡◌, refl, ℕ, false, none, List, [], ◌∷◌, if◌then◌else◌}
use atomfs.Text.{
  Bytes, bytes, text_eq, fields, has_prefix, has_suffix, trim_prefix, trim_suffix, split_by, split,
  join, is_space, non_empty, trim_right, trim_left, replace_all,
}
use atomfs.System.{
  ok, lift, ◌>>=◌, pure, fail, known, attempt, ask_text, errno, Call, Kernel, FileInfo, Answer,
  answer, failure, read_file, stat, ask_info, always, is_not_exist, act, ask_number, act_ignoring,
  on_failure,
}
use atomfs.System.Trace.{Ends, Ends-fail}
use atomfs.Host.{
  am_host_root, uidmap_is_host, path_exists, get_mount_ns_name, namespace_number, runtime_dir,
  replace_path_separators, ensure_dir,
}
use atomfs.Molecule.{
  Descriptor, metadata_path, make_lock, advisory_lock_path, mounted_atoms_path, annotation_of,
  write_to_file,
}
use atomfs.Molecule.Oci.{
  Engine, build_molecule_from_oci, build_molecule, lookup_manifest, reversed, swaps,
}
use atomfs.Molecule.Atoms.Verified.{IsHostRoot}
use atomfs.Command.{MountFlags, do_mount, find_image, cut_at_colon, am_privileged, persist_path}
use atomfs.Molecule.Steady.{IsStill}
use atomfs.Command.Image.{IsImageMounted, do_mount-IsImageMounted}
use atomfs.Tests.Molecules.{layout}
use atomfs.Tests.Data.{machine, setup, told, some_file, atom}
use atomfs.FilePath.{abs, is_abs, clean, join_path, resolve}
use atomfs.Molecule.Mounting.{mount_molecule, mount_locked, mount_all, returned, mount_top}
use atomfs.Molecule.Overlay.{
  overlay_lower_dirs, targets_of, with_workaround, overlay_args, mount_overlay,
}
use atomfs.Molecule.Atoms.{
  mount_underlying_atoms, mount_atoms, mount_atom, require_verity, root_hash_of, confirm_mounted,
}
use atomfs.Mountinfo.{
  parse_mounts, parse_lines, scan_lines, parse_line, parse_fields, scan_fields, after_dash,
  find_mount,
}
use atomfs.Verity.{confirm_hash, check_answer, check_table, confirm_validity, check_status}

-- A machine on which the atom is mounted through its verity device, and nothing is mounted at the
-- target.
abbrev ready_told : Call → Answer Bytes
ready_told (read_file p) =
    if text_eq p (bytes "/proc/self/mountinfo")
    then answer (
        bytes
          "40 30 0:50 / /run/atomfs/meta/4026531840/mnt/mounts/f00d ro - squashfs /dev/mapper/f00d-verity ro\n")
    else answer (bytes "0 0 4294967295\n")
ready_told c = told c

abbrev ready_info : Call → Answer FileInfo
ready_info (stat p) = if text_eq p (bytes "/oci") then answer some_file else failure (errno 2)
ready_info c = answer some_file

abbrev pub ready : Kernel
ready = record machine { tells_text = λ _ c. ready_told c; tells_info = λ _ c. ready_info c }

pub ready_root : IsHostRoot ready
unfolding am_host_root ◌>>=◌ known attempt ask_text pure text_eq uidmap_is_host fields has_prefix
    has_suffix trim_prefix trim_suffix split_by split join is_space non_empty trim_right trim_left
ready_root h = refl

ready-IsStill : IsStill ready
unfolding text_eq
ready-IsStill = (_, _, λ h. refl, λ h. refl)

abbrev one_layer : Engine ℕ (List Descriptor) ℕ
one_layer = record layout { manifest_data = λ _. atom ∷ [] }

abbrev flags : MountFlags
flags = record { persist = none; writeable = false; allow_missing_verity = false; metadir = [] }

abbrev arguments : List Bytes
arguments = bytes "/oci:latest" ∷ bytes "/mnt" ∷ []

do_mount_runs :
    (do_mount setup (λ _. pure one_layer) (pure tt) (fail (errno 1)) flags arguments ready []).0
    ≡ ok tt
unfolding do_mount ◌>>=◌ find_image cut_at_colon path_exists attempt ask_info text_eq pure
    am_privileged known abs is_abs lift persist_path build_molecule_from_oci always build_molecule
    lookup_manifest mount_molecule metadata_path get_mount_ns_name ask_text namespace_number clean
    runtime_dir replace_path_separators join_path join resolve split replace_all is_not_exist
    ensure_dir act make_lock advisory_lock_path ask_number act_ignoring mount_locked
    overlay_lower_dirs targets_of reversed swaps mounted_atoms_path with_workaround on_failure
    mount_all mount_underlying_atoms mount_atoms mount_atom require_verity root_hash_of
    annotation_of am_host_root uidmap_is_host trim_suffix fields parse_mounts parse_lines scan_lines
    parse_line parse_fields scan_fields after_dash find_mount confirm_mounted confirm_hash
    check_answer check_table confirm_validity check_status returned mount_top write_to_file
    overlay_args mount_overlay
do_mount_runs = refl

do_mount-IsImageMounted_example :
    Ends
      (do_mount setup (λ _. pure one_layer) (pure tt) (fail (errno 1)) flags arguments)
      ready
      []
      (λ _ h'. IsImageMounted setup (λ _. pure one_layer) ready arguments h')
do_mount-IsImageMounted_example =
    do_mount-IsImageMounted setup (λ _. pure one_layer) (pure tt) (fail (errno 1)) ready ready_root
      ready-IsStill flags refl (λ h. Ends-fail (errno 1)) arguments []
