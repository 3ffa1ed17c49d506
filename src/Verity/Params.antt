-- ===== src/Verity/Params.antt =====
-- What pkg/verity/verity.go hands to libcryptsetup, and what it asks of libdevmapper.
use atomfs.Base.{
  ℕ, ◌/◌, ◌%◌, ◌^◌, ◌+◌, Bool, not, ◌&&◌, ◌||◌, ◌==◌, leb, Option, none, some, List, [], ◌∷◌,
  if◌then◌else◌,
}
use atomfs.Text.{Bytes, bytes, text_eq}

-- `verityDeviceType`
pub record VerityDeviceType : Type 0 where
  pub flags : ℕ
  pub data_device : Bytes
  pub hash_offset : ℕ

-- The fields of `crypt_params_verity` that are not zero.
pub record CryptParamsVerity : Type 0 where
  pub hash_name : Bytes
  pub data_device : Bytes
  pub salt_size : ℕ
  pub data_block_size : ℕ
  pub hash_block_size : ℕ
  pub data_size : ℕ
  pub hash_area_offset : ℕ
  pub hash_type : ℕ
  pub flags : ℕ

-- `Unmanaged`. `C.uint` keeps 32 bits and `C.uint64_t` 64 bits.
unfoldable pub unmanaged : ℕ → VerityDeviceType → CryptParamsVerity
unmanaged page_size verity = record {
  hash_name = bytes "sha256";
  data_device = verity.data_device;
  salt_size = 32;
  data_block_size = page_size % 2 ^ 32;
  hash_block_size = page_size % 2 ^ 32;
  data_size = (verity.hash_offset / page_size) % 2 ^ 64;
  hash_area_offset = verity.hash_offset % 2 ^ 64;
  hash_type = 1;
  flags = verity.flags % 2 ^ 32;
}

-- What libdevmapper answers to the calls of one task, in the order of the calls. Without a target
-- the type is NULL.
pub record DmTask : Type 0 where
  pub created : Bool
  pub secured : Bool
  pub named : Bool
  pub ran : Bool
  pub informed : Bool
  pub device_exists : Bool
  -- The 32 bits of an `int32_t`.
  pub target_count : ℕ
  pub target : Option (Bytes × Bytes)

abbrev pub crypt_verity : Bytes
crypt_verity = bytes "VERITY"

-- `strcasecmp`
abbrev pub lower : ℕ → ℕ
lower c = if leb 65 c && leb c 90 then c + 32 else c

unfoldable pub lower_all : Bytes → Bytes
lower_all [] = []
lower_all (c ∷ s) = lower c ∷ lower_all s

abbrev pub same_letters : Bytes → Bytes → Bool
same_letters s t = text_eq (lower_all s) (lower_all t)

-- The functions of libdevmapper that are called.
pub data DmCall : Type 0 where
  task_create task_secure_data task_set_name task_run task_get_info get_next_target task_destroy :
      DmCall

-- The return code, the parameters, and the calls made, the newest first.
pub record DmAnswer : Type 0 where
  pub code : ℕ
  pub params : Option Bytes
  pub calls : List DmCall

-- The label `out`.
abbrev pub out : ℕ → Option Bytes → List DmCall → DmAnswer
out r params calls = record { code = r; params = params; calls = task_destroy ∷ calls }

-- `count <= 0`
abbrev pub not_positive : ℕ → Bool
not_positive count = count == 0 || leb (2 ^ 31) count

abbrev pub target_params : Option (Bytes × Bytes) → List DmCall → DmAnswer
target_params none calls = out 8 none calls
target_params (some (type_name, params)) calls =
    if not (same_letters type_name crypt_verity)
    then out 9 none calls
    else out 0 (some params) calls

abbrev pub info_params : DmTask → List DmCall → DmAnswer
info_params d calls =
    if not d.device_exists
    then out 6 none calls
    else if not_positive d.target_count
    then out 7 none calls
    else target_params d.target (get_next_target ∷ calls)

-- From `dm_task_create` on.
abbrev pub task_params : DmTask → List DmCall → DmAnswer
task_params d calls =
    if not d.secured
    then out 2 none (task_secure_data ∷ calls)
    else if not d.named
    then out 3 none (task_set_name ∷ task_secure_data ∷ calls)
    else if not d.ran
    then out 4 none (task_run ∷ task_set_name ∷ task_secure_data ∷ calls)
    else if not d.informed
    then out 5 none (task_get_info ∷ task_run ∷ task_set_name ∷ task_secure_data ∷ calls)
    else info_params d (task_get_info ∷ task_run ∷ task_set_name ∷ task_secure_data ∷ calls)

-- `get_verity_params`
unfoldable pub get_verity_params : DmTask → DmAnswer
get_verity_params d =
    if not d.created
    then record { code = 1; params = none; calls = task_create ∷ [] }
    else task_params d (task_create ∷ [])

-- `DM_DEVICE_TABLE`, `DM_DEVICE_STATUS`
pub data TaskType : Type 0 where
  device_table device_status : TaskType

-- The two functions differ in the task that they create for the device.
abbrev pub get_verity_table_params : (TaskType → DmTask) → DmAnswer
get_verity_table_params tasks = get_verity_params (tasks device_table)

abbrev pub get_verity_status_params : (TaskType → DmTask) → DmAnswer
get_verity_status_params tasks = get_verity_params (tasks device_status)

-- `Name`
abbrev pub device_type_name : VerityDeviceType → Bytes
device_type_name verity = crypt_verity
