-- ===== src/Layer/Interface.antt =====
-- The interface `Filesystem` of pkg/types/fs.go, and its two implementations in pkg/squashfs/fs.go and
-- pkg/erofs/fs.go.
use atomfs.Base.{Bool, Option}
use atomfs.Text.{Bytes}
use atomfs.System.{Answer, Exec}
use atomfs.MediaType.{squashfs, erofs}
use atomfs.Exclude.{ExcludePaths}
use atomfs.Device.{umount}
use atomfs.Extract.Policy.{ExtractPolicy}
use atomfs.Extract.Policy.Single.{extract_single}
use atomfs.Make.{Made, make_squashfs, make_erofs}
use atomfs.Layer.{Setup, mount_layer}

-- `types.Filesystem`. `extract_single` takes and leaves what the process holds of its policy.
pub record FilesystemOps : Type 0 where
  pub make : Bytes → Bytes → Option ExcludePaths → Bool → Exec Made
  pub extract_single :
      Bytes
      → Bytes
      → Option (Answer ExtractPolicy)
      → Exec (Answer (Unit {0}) × Answer ExtractPolicy)
  pub mount : Bytes → Bytes → Bytes → Exec (Unit {0})
  pub umount : Bytes → Exec (Unit {0})

-- `Umount` of both.
abbrev pub umount_layer : Bytes → Exec (Unit {0})
umount_layer mountpoint = umount mountpoint

abbrev pub Extracted : Type 0
Extracted = Answer (Unit {0}) × Answer ExtractPolicy

-- `ExtractSingleSquash`
abbrev pub extract_single_squash :
    Setup → Bytes → Bytes → Option (Answer ExtractPolicy) → Exec Extracted
extract_single_squash setup img dir ex_pol_info =
    extract_single squashfs setup.squash_info img dir ex_pol_info

-- `ExtractSingleErofs`
abbrev pub extract_single_erofs :
    Setup → Bytes → Bytes → Option (Answer ExtractPolicy) → Exec Extracted
extract_single_erofs setup img dir ex_pol_info =
    extract_single erofs setup.erofs_info img dir ex_pol_info

-- `New` of pkg/squashfs, with what the `sync.Once` of the test for zstd has found.
abbrev pub new_squashfs : Setup → Option Bool → FilesystemOps
new_squashfs setup once = record {
  make = make_squashfs once;
  extract_single = extract_single_squash setup;
  mount = mount_layer setup squashfs;
  umount = umount_layer;
}

-- `New` of pkg/erofs.
abbrev pub new_erofs : Setup → FilesystemOps
new_erofs setup = record {
  make = make_erofs;
  extract_single = extract_single_erofs setup;
  mount = mount_layer setup erofs;
  umount = umount_layer;
}
