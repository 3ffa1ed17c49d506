-- ===== src/System.antt =====
-- The world that the program runs in, and the actions of the program over it.
-- The kernel, its file system and device mapper, libcryptsetup and the processes that the program
-- starts are not code of the repository: a `Kernel` answers every call by a function of all calls
-- made before, so that any deterministic environment is an instance. An action threads the history
-- of calls, newest first, and ends with a value, an error or a panic.
pub mod Trace
pub mod Attempt
pub mod Keeps
use atomfs.Base.{ℕ, Bool, true, false, ◌==◌, List, [], ◌∷◌}
use atomfs.Text.{Bytes}

-- The errors that the modelled code tells apart or creates; messages are not modelled. `errno` is
-- a `syscall.Errno`, `cryptsetup` the negated code of a `cryptsetup.Error`, `foreign` any other
-- error of a library.
pub data Error : Type 0 where
  errno : ℕ → Error
  cryptsetup : ℕ → Error
  foreign : ℕ → Error
  asked_for_verity no_root_hash bad_size too_old bad_hex bad_key_size : Error
  dm_problem invalid_dm_params wrong_root_hash invalid_status corruption : Error
  too_many_slaves bad_loop_dev bad_stat already_mounted not_a_mountpoint : Error
  not_overlay no_lowerdirs unknown_media_type guest_verity metadir_exists : Error
  too_many_lower_dirs not_atomfs lock_failed bad_descriptor not_a_manifest bad_config_type : Error
  bad_length bad_magic bad_version bad_block_log unsupported_features : Error
  unsupported_block_size bad_checksum short_read usage no_oci_dir persist_argument corrupt_molecule
        no_mounts_found :
      Error
  unknown_extractor no_policy no_extractors none_suitable unavailable empty_image out_of_fuel
        fuse_not_found symlink_target fuse_exited fuse_error kmount_failed :
      Error

-- What the kernel answers.
pub data Answer {ℓ} (A : Type ℓ) : Type ℓ where
  answer : A → Answer A
  failure : Error → Answer A

pub data Result {ℓ} (A : Type ℓ) : Type ℓ where
  ok : A → Result A
  err : Error → Result A
  panic : Result A

-- What `os.Stat` and `os.Lstat` tell of a file.
pub record FileInfo : Type 0 where
  pub size : ℕ
  pub is_dir : Bool
  pub is_symlink : Bool
  pub minor : ℕ
  pub inode : ℕ
  pub device : ℕ

-- One constructor for each call that the program makes of its environment.
pub data Call : Type 0 where
  stat lstat readlink read_file read_dir access open_file : Bytes → Call
  mkdir_all remove_all create write_file : Bytes → Call
  getwd sleep : Call
  -- a lock on, and the end of, an open file
  flock close : ℕ → Call
  -- source, target, type, flags, options
  mount : Bytes → Bytes → Bytes → ℕ → Bytes → Call
  unmount : Bytes → Call
  loop_attach : Bytes → Call
  loop_detach : ℕ → Call
  crypt_init : Bytes → Call
  -- data device and hash offset
  crypt_format crypt_load : Bytes → ℕ → Call
  crypt_volume_key : Bytes → Call
  -- name and key
  crypt_activate : Bytes → Bytes → Call
  crypt_deactivate : Bytes → Call
  dm_table dm_status : Bytes → Call
  -- a program and its arguments
  run : Bytes → List Bytes → Call
  -- the text that a program writes before it ends
  output : Bytes → List Bytes → Call
  -- its standard output and its standard error
  outputs : Bytes → List Bytes → Call
  -- a program that goes on running, and what becomes of it
  start : Bytes → List Bytes → Call
  exited elapsed kill : Call
  mkfifo notified : Bytes → Call
  -- new names in a directory, with a prefix
  create_temp mkdir_temp : Bytes → Bytes → Call
  remove close_temp : Bytes → Call
  -- a file and what is written to it
  write_text : Bytes → Bytes → Call
  release : Call

abbrev pub History : Type 0
History = List Call

-- The answers of the environment, and what does not change while the program runs: the effective
-- user, the environment variables, the size of a page, the longest
-- slice that `make` grants, and the names of the loop devices.
pub record Kernel : Type 0 where
  pub euid : ℕ
  pub env : Bytes → Bytes
  pub page_size : ℕ
  pub max_slice : ℕ
  pub loop_path : ℕ → Bytes
  pub acts : History → Call → Answer (Unit {0})
  pub tells_text : History → Call → Answer Bytes
  pub tells_names : History → Call → Answer (List Bytes)
  pub tells_info : History → Call → Answer FileInfo
  pub tells_number : History → Call → Answer ℕ

abbrev pub Exec {ℓ} : Type ℓ → Type ℓ
Exec A = Kernel → History → Result A × History

module _ {ℓ} {A : Type ℓ} where
  unfoldable pub pure : A → Exec A
  pure a k h = (ok a, h)

  unfoldable pub fail : Error → Exec A
  fail e k h = (err e, h)

  unfoldable pub lift : Result A → Exec A
  lift r k h = (r, h)

  -- A run-time panic of Go: an index out of range, a nil pointer.
  unfoldable pub crash : Exec A
  crash k h = (panic, h)

  abbrev pub to_result : Answer A → Result A
  to_result (answer a) = ok a
  to_result (failure e) = err e

module _ {ℓ κ} {A : Type ℓ} {B : Type κ} where
  -- The next step of a computation without calls.
  abbrev pub and_then : Result A → (A → Result B) → Result B
  and_then (ok a) f = f a
  and_then (err e) f = err e
  and_then panic f = panic

  abbrev pub continue : (A → Exec B) → Kernel → Result A × History → Result B × History
  continue f k (ok a, h) = f a k h
  continue f k (err e, h) = (err e, h)
  continue f k (panic, h) = (panic, h)

  infixl 5 ◌>>=◌
  -- `if err != nil { return err }` after every step.
  unfoldable pub ◌>>=◌ : Exec A → (A → Exec B) → Exec B
  ◌>>=◌ m f k h = continue f k (m k h)

infixl 5 ◌>>◌
abbrev pub ◌>>◌ {κ} : {B : Type κ} → Exec (Unit {0}) → Exec B → Exec B
m >> n = m >>= λ _. n

module _ {ℓ} {A : Type ℓ} where
  abbrev pub caught : Result A × History → Result (Answer A) × History
  caught (ok a, h) = (ok (answer a), h)
  caught (err e, h) = (ok (failure e), h)
  caught (panic, h) = (panic, h)

  -- The error as a value, where the code looks at it.
  unfoldable pub attempt : Exec A → Exec (Answer A)
  attempt m k h = caught (m k h)

  abbrev pub ignoring : Result (Unit {0}) × History → Result A → Result A × History
  ignoring (ok tt, h) r = (r, h)
  ignoring (err e, h) r = (r, h)
  ignoring (panic, h) r = (panic, h)

  abbrev pub failed_then : Exec (Unit {0}) → Kernel → Result A × History → Result A × History
  failed_then d k (ok a, h) = (ok a, h)
  failed_then d k (err e, h) = ignoring (d k h) (err e)
  failed_then d k (panic, h) = ignoring (d k h) panic

  -- `defer func() { if !complete { d } }()` around `m`, which completes if it returns a value.
  unfoldable pub on_failure : Exec A → Exec (Unit {0}) → Exec A
  on_failure m d k h = failed_then d k (m k h)

  -- `defer d` around `m`: the error of `d` is dropped.
  unfoldable pub always : Exec A → Exec (Unit {0}) → Exec A
  always m d k h = let (r, h') = m k h in ignoring (d k h') r

unfoldable pub act : Call → Exec (Unit {0})
act c k h = (to_result (k.acts h c), c ∷ h)

unfoldable pub ask_text : Call → Exec Bytes
ask_text c k h = (to_result (k.tells_text h c), c ∷ h)

unfoldable pub ask_names : Call → Exec (List Bytes)
ask_names c k h = (to_result (k.tells_names h c), c ∷ h)

unfoldable pub ask_info : Call → Exec FileInfo
ask_info c k h = (to_result (k.tells_info h c), c ∷ h)

unfoldable pub ask_number : Call → Exec ℕ
ask_number c k h = (to_result (k.tells_number h c), c ∷ h)

-- What the kernel record says for itself.
unfoldable pub known {ℓ} : {A : Type ℓ} → (Kernel → A) → Exec A
known f k h = (ok (f k), h)

-- A call whose error the code drops, as in `_ = loopDev.Detach()`.
unfoldable pub act_ignoring : Call → Exec (Unit {0})
act_ignoring c k h = (ok tt, c ∷ h)

-- `os.IsNotExist(err)`: the error is ENOENT.
unfoldable pub is_not_exist : Error → Bool
is_not_exist (errno n) = n == 2
is_not_exist _ = false
