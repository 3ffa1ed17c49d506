-- ===== src/Tests/Data.antt =====
-- A machine with one image, and its molecules.
use atomfs.Base.{false, [], ◌∷◌, ◌++◌}
use atomfs.Text.{Bytes, bytes}
use atomfs.Numeral.{decimal}
use atomfs.System.{
  Answer, answer, failure, errno, Call, Kernel, FileInfo, readlink, read_file, dm_table, dm_status,
  getwd,
}
use atomfs.Molecule.{Molecule, MountOciOpts, Descriptor}
use atomfs.Verity.{annotation}
use atomfs.Fuse.{no_fuse}
use atomfs.Layer.{Setup}

abbrev pub root_hash : Bytes
root_hash = bytes "ab12"

abbrev pub told : Call → Answer Bytes
told (readlink p) = answer (bytes "mnt:[4026531840]")
told (read_file p) = answer (bytes "0 0 4294967295\n")
told (dm_table d) = answer (bytes "1 /dev/loop0 /dev/loop0 512 512 8 1 sha256 ab12 00")
told (dm_status d) = answer (bytes "V")
told getwd = answer (bytes "/home")
told _ = failure (errno 2)

abbrev pub some_file : FileInfo
some_file = record {
  size = 8192;
  is_dir = false;
  is_symlink = false;
  minor = 3;
  inode = 7;
  device = 64;
}

-- The kernel grants every call; a text that is not told does not exist.
abbrev pub machine : Kernel
machine = record {
  euid = 0;
  env = λ _. [];
  page_size = 4096;
  max_slice = 65536;
  loop_path = λ n. bytes "/dev/loop" ++ decimal 10 n;
  acts = λ _ _. answer tt;
  tells_text = λ _ c. told c;
  tells_names = λ _ _. answer (bytes "loop3" ∷ []);
  tells_info = λ _ _. answer some_file;
  tells_number = λ _ _. answer 3;
}

-- A host with no program that serves an image in user space.
abbrev pub setup : Setup
setup = record { minus_infinity = 0; squash_info = no_fuse; erofs_info = no_fuse }

abbrev pub atom : Descriptor
atom = record {
  media_type = bytes "application/vnd.stacker.image.layer.squashfs+zstd+verity";
  encoded = bytes "f00d";
  annotations = (annotation, root_hash) ∷ [];
}

abbrev pub opts : MountOciOpts
opts = record {
  oci_dir = bytes "/oci";
  tag = bytes "latest";
  target = bytes "/mnt";
  add_writeable_overlay = false;
  writeable_overlay_path = [];
  allow_missing_verity_data = false;
  metadata_dir = [];
}

abbrev pub molecule : Molecule
molecule = record { atoms = atom ∷ []; config = opts }
