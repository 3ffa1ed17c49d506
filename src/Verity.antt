-- ===== src/Verity.antt =====
-- pkg/verity/verity.go: dm-verity devices over loop devices.
pub mod Confirm
pub mod Params
pub mod HostMount
pub mod Unmount
use atomfs.Base.{
  ℕ, zero, suc, ◌+◌, ◌*◌, ◌/◌, ◌%◌, Bool, true, false, not, ◌&&◌, ◌||◌, Option, none, some, List,
  [], ◌∷◌, ◌++◌, ◌==◌, ltb, if◌then◌else◌, length, get_elem?,
}
use atomfs.Text.{Bytes, bytes, text_eq, is_empty, fields, trim_prefix}
use atomfs.FilePath.{join_path, base}
use atomfs.Numeral.{parse_int, decimal}
use atomfs.Numeral.Hex.{hex_encode, hex_decode}
use atomfs.System.{
  Error, errno, cryptsetup, asked_for_verity, no_root_hash, bad_size, too_old, bad_hex,
  bad_key_size, dm_problem, invalid_dm_params, wrong_root_hash, invalid_status, corruption,
  too_many_slaves, bad_loop_dev, Answer, answer, failure, Result, ok, err, Exec, pure, lift, fail,
  crash, ◌>>=◌, ◌>>◌, attempt, on_failure, act, act_ignoring, ask_text, ask_names, ask_info,
  ask_number, known, is_not_exist, stat, lstat, read_dir, mount, loop_attach, loop_detach,
  crypt_init, crypt_format, crypt_load, crypt_volume_key, crypt_activate, crypt_deactivate,
  dm_table, dm_status, sleep,
}

abbrev pub annotation_previous : Bytes
annotation_previous = bytes "io.stackeroci.stacker.squashfs_verity_root_hash"

abbrev pub annotation : Bytes
annotation = bytes "io.stackeroci.stacker.atomfs_verity_root_hash"

abbrev pub verity_suffix : Bytes
verity_suffix = bytes "verity"

-- `unix.MS_RDONLY`
abbrev pub ms_rdonly : ℕ
ms_rdonly = 1

abbrev pub ebusy : ℕ
ebusy = 16

-- -22 is libcryptsetup's answer where it cannot tell the root hash.
unfoldable pub is_cryptsetup_einval : Error → Bool
is_cryptsetup_einval (cryptsetup n) = n == 22
is_cryptsetup_einval _ = false

abbrev pub root_hash_of : Answer Bytes → Exec Bytes
root_hash_of (answer key) = pure (hex_encode key)
root_hash_of (failure e) = if is_cryptsetup_einval e then fail too_old else fail e

unfoldable pub append_verity_data : Bytes → Exec Bytes
append_verity_data file = do
  fi ← ask_info (lstat file)
  if not (fi.size % 512 == 0) then fail bad_size else do
    act (crypt_init file)
    act (crypt_format file fi.size)
    key ← attempt (ask_text (crypt_volume_key file))
    root_hash_of key

unfoldable pub verity_name : Bytes → Bytes
verity_name p = p ++ (bytes "-" ++ verity_suffix)

-- The tests of the parameters of the device mapper's table.
unfoldable pub check_table : Bytes → Bytes → Result (Unit {0})
check_table root_hash params = elim (get_elem? (fields params) 8) [
  | none ↦ err invalid_dm_params
  | some found ↦
      if ltb (length (fields params)) 10
      then err invalid_dm_params
      else if text_eq root_hash found
      then ok tt
      else err wrong_root_hash
]

unfoldable pub check_answer : Bytes → Bool → Answer Bytes → Result (Unit {0})
check_answer root_hash allow (failure e) = if allow then ok tt else err dm_problem
check_answer root_hash allow (answer params) = check_table root_hash params

-- `ConfirmExistingVerityDeviceHash`
unfoldable pub confirm_hash : Bytes → Bytes → Bool → Exec (Unit {0})
confirm_hash device_path root_hash allow_verity_failure = do
  params ← attempt (ask_text (dm_table (base device_path)))
  lift (check_answer root_hash allow_verity_failure params)

unfoldable pub check_status : Answer Bytes → Result (Unit {0})
check_status (failure e) = err dm_problem
check_status (answer params) =
    if not (length params == 1)
    then err invalid_status
    else if text_eq params (bytes "V")
    then ok tt
    else err corruption

-- `ConfirmExistingVerityDeviceCurrentValidity`
unfoldable pub confirm_validity : Bytes → Exec (Unit {0})
confirm_validity device_path = do
  params ← attempt (ask_text (dm_status (base device_path)))
  lift (check_status params)

unfoldable pub activate : Bytes → Bytes → Option Bytes → Exec (Unit {0})
activate name root_hash none = fail bad_hex
activate name root_hash (some key) =
    if not (length key == (length root_hash * 4) / 8)
    then fail bad_key_size
    else act (crypt_activate name key)

-- A loop device over the image and a verity device over that. A failure of `cryptsetup.Init` leaves
-- the loop device attached; a later failure detaches it.
unfoldable pub open_verity : Bytes → Bytes → Bytes → ℕ → Exec (Option ℕ)
open_verity img name root_hash offset = do
  loop ← ask_number (loop_attach img)
  device ← known (λ k. k.loop_path loop)
  act (crypt_init device)
  on_failure (do act (crypt_load device offset); activate name root_hash (hex_decode root_hash))
      (act_ignoring (loop_detach loop))
  pure (some loop)

abbrev pub verity_device_path : Bytes → Bytes
verity_device_path name = join_path (bytes "/dev/mapper" ∷ name ∷ [])

-- The branch on `os.Stat` of the device: an existing one must have the root hash.
unfoldable pub existing_or_new :
    Bytes → Bytes → Bytes → ℕ → {A : Type 0} → Answer A → Exec (Option ℕ)
existing_or_new img name root_hash offset (answer _) = do
  confirm_hash (verity_device_path name) root_hash false
  pure none
existing_or_new img name root_hash offset (failure e) =
    if is_not_exist e then open_verity img name root_hash offset else fail e

-- What a failed mount undoes: a new loop device is detached twice.
unfoldable pub undo_open : Bytes → Option ℕ → Exec (Unit {0})
undo_open name none = pure tt
undo_open name (some loop) = do
  act_ignoring (crypt_deactivate name)
  act_ignoring (loop_detach loop)
  act_ignoring (loop_detach loop)

unfoldable pub mount_with_verity : Bytes → Bytes → Bytes → Bytes → ℕ → Exec (Unit {0})
mount_with_verity img fs_type mountpoint root_hash offset = do
  let name = verity_name (base img)
  found ← attempt (ask_info (stat (verity_device_path name)))
  opened ← existing_or_new img name root_hash offset found
  confirm_validity (verity_device_path name)
  on_failure (act (mount (verity_device_path name) mountpoint fs_type ms_rdonly []))
      (undo_open name opened)

-- The deferred `Detach` runs whether the mount succeeds or not.
unfoldable pub mount_plain : Bytes → Bytes → Bytes → Exec (Unit {0})
mount_plain img fs_type mountpoint = do
  loop ← ask_number (loop_attach img)
  source ← known (λ k. k.loop_path loop)
  mounted ← attempt (act (mount source mountpoint fs_type ms_rdonly []))
  act_ignoring (loop_detach loop)
  elim mounted [ answer _ ↦ pure tt | failure e ↦ fail e ]

-- `VerityHostMount`
unfoldable pub verity_host_mount : Bytes → Bytes → Bytes → Bytes → ℕ → ℕ → Exec (Unit {0})
verity_host_mount img fs_type mountpoint root_hash size offset =
    if (offset == size) && not (is_empty root_hash)
    then fail asked_for_verity
    else if is_empty root_hash && not (offset == size)
    then fail no_root_hash
    else if is_empty root_hash
    then mount_plain img fs_type mountpoint
    else mount_with_verity img fs_type mountpoint root_hash offset

abbrev pub loop_number : Option ℕ → Exec ℕ
loop_number none = fail bad_loop_dev
loop_number (some n) = pure n

abbrev pub only_slave : List Bytes → Exec ℕ
only_slave (name ∷ []) = loop_number (parse_int (trim_prefix (base name) (bytes "loop")))
only_slave _ = fail too_many_slaves

-- `findLoopBackingVerity`; a minor number has at most ten digits.
unfoldable pub find_loop_backing_verity : Bytes → Exec ℕ
find_loop_backing_verity device = do
  fi ← ask_info (stat device)
  ents ← ask_names (read_dir (bytes "/sys/block/dm-" ++ (decimal 10 fi.minor ++ bytes "/slaves")))
  only_slave ents

-- Only an errno other than EBUSY ends the retries.
unfoldable pub gives_up : Error → Bool
gives_up (errno n) = not (n == ebusy)
gives_up _ = false

abbrev pub last_error : Option Error → Exec (Unit {0})
last_error none = pure tt
last_error (some e) = fail e

unfoldable pub after_try : (Option Error → Exec (Unit {0})) → Answer (Unit {0}) → Exec (Unit {0})
after_try again (answer _) = pure tt
after_try again (failure e) = if gives_up e then fail e else do act_ignoring sleep; again (some e)

unfoldable pub retry : ℕ → Exec (Unit {0}) → Option Error → Exec (Unit {0})
retry zero fn last = last_error last
retry (suc n) fn last = do done ← attempt fn; after_try (retry n fn) done

abbrev pub max_retries : ℕ
max_retries = 5

unfoldable pub retry_if_busy : Exec (Unit {0}) → Exec (Unit {0})
retry_if_busy fn = retry max_retries fn none

unfoldable pub verity_unmount : Bytes → Exec (Unit {0})
verity_unmount mount_path = do
  loop ← find_loop_backing_verity mount_path
  retry_if_busy (act (crypt_deactivate mount_path))
  act (loop_detach loop)
