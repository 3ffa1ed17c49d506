-- ===== src/Command/Checked.antt =====
-- `atomfs verify` as a whole: what stands behind a success.
use atomfs.Base.{◌≡◌, ◌≢◌, false, List}
use atomfs.Text.{Bytes}
use atomfs.System.{ok, History, Kernel}
use atomfs.Host.{get_mount_ns_name, runtime_dir, replace_path_separators}
use atomfs.Mountinfo.{Mount, parse_mounts}
use atomfs.Command.{has_other, mounts_dir}
use atomfs.Command.Verify.{AllFine, checked_count}

-- The mounts below the molecule's directory: there is one of squashfs, each of these is valid, and
-- no mount at the path itself is anything but an overlay.
pub record IsFine (k : Kernel) (metadir path : Bytes) : Type 0 where
  pub ns : Bytes
  pub ns_history : History
  pub namespace : (get_mount_ns_name k ns_history).0 ≡ ok ns
  pub runtimedir : Bytes
  pub runtime_history : History
  pub runtime : (runtime_dir metadir k runtime_history).0 ≡ ok runtimedir
  pub flat : Bytes
  pub flattened : replace_path_separators path ≡ ok flat
  pub mounts : List Mount
  pub table_history : History
  pub listed : (parse_mounts k table_history).0 ≡ ok mounts
  pub overlay_only : has_other path mounts ≡ false
  pub some_checked : checked_count (mounts_dir runtimedir ns flat) mounts ≢ 0
  pub asked : History
  pub valid : AllFine k (mounts_dir runtimedir ns flat) asked mounts
