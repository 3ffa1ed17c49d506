-- ===== src/Tests/Volumes.antt =====
-- Mounting and unmounting layers on the machine.
use atomfs.Base.{◌≡◌, refl, true, false, some, [], ◌∷◌}
use atomfs.Text.{
  text_eq, has_prefix, has_suffix, trim_prefix, trim_suffix, split_by, split, join, is_space,
  non_empty, trim_right, trim_left, Bytes, bytes, fields,
}
use atomfs.FilePath.{is_abs, clean, resolve, join_path, base}
use atomfs.System.{
  pure, fail, lift, ◌>>=◌, attempt, on_failure, ask_text, ask_info, ask_number, known, act_ignoring,
  ok, History, Kernel, act,
}
use atomfs.System.Trace.{Ends}
use atomfs.MediaType.{squashfs}
use atomfs.Host.{am_host_root, uidmap_is_host}
use atomfs.Host.UidMap.{am_host_root_iff}
use atomfs.Verity.{
  verity_name, check_table, check_answer, confirm_hash, check_status, confirm_validity,
  existing_or_new, mount_with_verity, verity_host_mount, verity_unmount,
}
use atomfs.Verity.HostMount.{IsVerityMount, verity_host_mount-IsVerityMount}
use atomfs.Verity.Unmount.{IsTornDown, verity_unmount-IsTornDown}
use atomfs.Layer.{type_name, mount_layer}
use atomfs.Layer.Guest.{privileged, mount_layer-privileged}
use atomfs.Layer.Mounts.{mount_layer-IsVerityMount}
use atomfs.Verity.Params.{
  DmTask, get_verity_params, lower_all, task_create, task_secure_data, task_set_name, task_run,
  task_get_info, get_next_target, task_destroy,
}
use atomfs.Tests.Data.{machine, setup, root_hash}

abbrev pub img : Bytes
img = bytes "/oci/blobs/sha256/f00d"

-- An existing device with the right root hash is mounted.
host_mount_runs :
    (verity_host_mount img (bytes "squashfs") (bytes "/mnt") root_hash 8192 4096 machine []).0
    ≡ ok tt
unfolding verity_name check_table check_answer confirm_hash check_status confirm_validity
    existing_or_new mount_with_verity verity_host_mount pure fail lift ◌>>=◌ attempt on_failure act
    ask_text ask_info ask_number known act_ignoring is_abs clean resolve join_path base text_eq
    has_prefix has_suffix trim_prefix trim_suffix split_by split join is_space non_empty trim_right
    trim_left fields
host_mount_runs = refl

verity_host_mount-IsVerityMount_example :
    Ends
      (verity_host_mount img (bytes "squashfs") (bytes "/mnt") root_hash 8192 4096)
      machine
      []
      (λ _ h.
        IsVerityMount machine
          (verity_name (base img))
          (bytes "squashfs")
          (bytes "/mnt")
          root_hash
          h)
verity_host_mount-IsVerityMount_example =
    verity_host_mount-IsVerityMount img (bytes "squashfs") (bytes "/mnt") root_hash 8192 4096
      machine [] refl

pub host_root_always : (h : History) → (am_host_root machine h).0 ≡ ok true
unfolding uidmap_is_host fields text_eq has_prefix has_suffix trim_prefix trim_suffix split_by split
    join is_space non_empty trim_right trim_left
host_root_always h = (am_host_root_iff machine h).1 (refl, refl)

mount_layer-IsVerityMount_example :
    Ends (mount_layer setup squashfs img (bytes "/mnt") root_hash) machine [] (λ _ h.
      IsVerityMount machine
        (verity_name (base img))
        (type_name squashfs)
        (bytes "/mnt")
        root_hash
        h)
mount_layer-IsVerityMount_example =
    mount_layer-IsVerityMount setup squashfs img (bytes "/mnt") root_hash machine refl []
      (host_root_always [])

verity_unmount-IsTornDown_example :
    Ends
      (verity_unmount (bytes "/dev/mapper/f00d-verity"))
      machine
      []
      (λ _ h. IsTornDown machine (bytes "/dev/mapper/f00d-verity") [] h)
verity_unmount-IsTornDown_example =
    verity_unmount-IsTornDown (bytes "/dev/mapper/f00d-verity") machine []

-- Another user.
abbrev guest : Kernel
guest = record machine { euid = 1000 }

is_guest : (am_host_root guest []).0 ≡ ok false
unfolding am_host_root ◌>>=◌ known pure
is_guest = refl

mount_layer-privileged_example :
    privileged (mount_layer setup squashfs img (bytes "/mnt") root_hash guest []).1 ≡ privileged []
mount_layer-privileged_example =
    mount_layer-privileged setup squashfs img (bytes "/mnt") root_hash guest [] is_guest

abbrev task : DmTask
task = record {
  created = true;
  secured = true;
  named = true;
  ran = true;
  informed = true;
  device_exists = true;
  target_count = 1;
  target = some (bytes "verity", bytes "V");
}

get_verity_params_runs : get_verity_params task ≡ record {
  code = 0;
  params = some (bytes "V");
  calls =
      task_destroy ∷ get_next_target ∷ task_get_info ∷ task_run ∷ task_set_name ∷ task_secure_data
      ∷ task_create ∷ [];
}
unfolding get_verity_params text_eq lower_all
get_verity_params_runs = refl
