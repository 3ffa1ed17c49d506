-- ===== src/Tests/Commands.antt =====
-- The commands on the machine.
use atomfs.Verity.{confirm_validity, check_status}
use atomfs.Host.{get_mount_ns_name, namespace_number, runtime_dir, replace_path_separators}
use atomfs.FilePath.{is_abs, join_path, clean, resolve}
use atomfs.Base.{refl, ◌≡◌, ◌≢◌, ◌↔◌, List, [], ◌∷◌}
use atomfs.Text.{Bytes, bytes, trim_suffix, split, fields, text_eq, trim_right, join, replace_all}
use atomfs.Device.{is_mountpoint}
use atomfs.System.{
  Call, Answer, answer, Kernel, read_file, ok, lift, ◌>>=◌, pure, attempt, ask_text, known,
}
use atomfs.Mountinfo as Mountinfo
use atomfs.Mountinfo.{
  Mount, find_mount_at, parse_mounts, parse_lines, scan_lines, parse_line, parse_fields,
  scan_fields, after_dash, find_mount,
}
use atomfs.Command.{do_verify, check_mounts, verdict, verify_mounted, has_other, is_checked}
use atomfs.Command.Verify.{AllFine, checked_count, verdict-AllFine}
use atomfs.Tests.Data.{machine, told}

abbrev mounts : List Mount
mounts =
    record {
      source = bytes "/dev/mapper/f00d-verity";
      target = bytes "/m/f00d";
      fs_type = bytes "squashfs";
      opts = [];
    }
    ∷ record { source = bytes "proc"; target = bytes "/proc"; fs_type = bytes "proc"; opts = [] }
    ∷ []

verdict-AllFine_example :
    (((check_mounts (bytes "/m") mounts >>= λ checked. lift (verdict checked)) machine []).0
      ≡ ok tt)
    ↔ ((checked_count (bytes "/m") mounts ≢ 0) × AllFine machine (bytes "/m") [] mounts)
verdict-AllFine_example = verdict-AllFine (bytes "/m") mounts machine []

-- A machine with a molecule at /mnt.
abbrev shown : Call → Answer Bytes
shown (read_file p) = answer (
    bytes
      "40 30 0:50 / /run/atomfs/meta/4026531840/mnt/mounts/f00d ro - squashfs /dev/mapper/f00d-verity ro\n41 30 0:51 / /mnt rw - overlay overlay rw\n")
shown c = told c

abbrev serving : Kernel
serving = record machine { tells_text = λ _ c. shown c }

do_verify_runs : (do_verify [] (bytes "/mnt" ∷ []) serving []).0 ≡ ok tt
unfolding do_verify trim_suffix ◌>>=◌ is_abs pure is_mountpoint attempt Mountinfo.is_mountpoint
    find_mount_at parse_mounts ask_text lift parse_lines scan_lines split parse_line parse_fields
    fields scan_fields text_eq after_dash find_mount trim_right verify_mounted get_mount_ns_name
    namespace_number runtime_dir known replace_path_separators has_other check_mounts is_checked
    join_path clean join resolve replace_all confirm_validity check_status verdict
do_verify_runs = refl
