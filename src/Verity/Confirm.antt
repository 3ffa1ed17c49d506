-- ===== src/Verity/Confirm.antt =====
-- The tests of a dm-verity device that exists.
use atomfs.Base.{
  ◌≤◌, ◌≡◌, ◌↔◌, refl, Bool, true, some, ◌∷◌, arith, length, get_elem?, Option-cases, inl, inr,
}
use atomfs.Text.{Bytes, bytes, text_eq_iff, fields}
use atomfs.FilePath.{base}
use atomfs.System.{
  Answer, answer, failure, ok, History, Kernel, lift, ◌>>=◌, attempt, ask_text, dm_table, dm_status,
}
use atomfs.Verity.{check_table, check_answer, confirm_hash, confirm_validity, check_status}

-- The parameters have ten fields at least, and the ninth is the root hash.
abbrev pub TableHas : Bytes → Bytes → Type 0
TableHas root_hash params =
    (10 ≤ length (fields params)) × (get_elem? (fields params) 8 ≡ some root_hash)

-- What the device mapper has answered for the table is acceptable.
abbrev pub IsAccepted : Bytes → Bool → Answer Bytes → Type 0
IsAccepted root_hash allow (answer params) = TableHas root_hash params
IsAccepted root_hash allow (failure e) = allow ≡ true

check_table-TableHas :
    (root_hash params : Bytes) → (check_table root_hash params ≡ ok tt) ↔ TableHas root_hash params
unfolding check_table
check_table-TableHas root_hash params = elim (Option-cases (get_elem? (fields params) 8)) [
  | inl e ↦ ground arith
  | inr (found, e) ↦ ground (arith, text_eq_iff root_hash found)
]

check_answer-IsAccepted :
    (root_hash : Bytes) (allow : Bool) (x : Answer Bytes)
    → (check_answer root_hash allow x ≡ ok tt) ↔ IsAccepted root_hash allow x
unfolding check_answer
check_answer-IsAccepted root_hash allow (answer params) = check_table-TableHas root_hash params
check_answer-IsAccepted root_hash allow (failure e) = ground arith

confirm_hash-eq :
    (device root_hash : Bytes) (allow : Bool) (k : Kernel) (h : History)
    → confirm_hash device root_hash allow k h ≡ (
      check_answer root_hash allow (k.tells_text h (dm_table (base device))),
      dm_table (base device) ∷ h,
    )
unfolding confirm_hash ◌>>=◌ attempt ask_text lift
confirm_hash-eq device root_hash allow k h = ground arith

-- A device is confirmed exactly if the table that the device mapper tells of it has the root hash,
-- or if it tells nothing and that is allowed. The answer to one question decides.
pub confirm_hash-IsAccepted :
    (device root_hash : Bytes) (allow : Bool) (k : Kernel) (h : History)
    → let q = dm_table (base device) in
      (((confirm_hash device root_hash allow k h).0 ≡ ok tt)
        ↔ IsAccepted root_hash allow (k.tells_text h q))
      × ((confirm_hash device root_hash allow k h).1 ≡ q ∷ h)
confirm_hash-IsAccepted device root_hash allow k h =
    rw (confirm_hash-eq device root_hash allow k h)
      (check_answer-IsAccepted root_hash allow (k.tells_text h (dm_table (base device))), refl)

check_status-V : (x : Answer Bytes) → (check_status x ≡ ok tt) ↔ (x ≡ answer (bytes "V"))
unfolding check_status
check_status-V (answer params) = ground (arith, text_eq_iff params (bytes "V"))
check_status-V (failure e) = ground arith

pub confirm_validity-eq :
    (device : Bytes) (k : Kernel) (h : History)
    → confirm_validity device k h
      ≡ (check_status (k.tells_text h (dm_status (base device))), dm_status (base device) ∷ h)
unfolding confirm_validity ◌>>=◌ attempt ask_text lift
confirm_validity-eq device k h = ground arith

-- A device is valid exactly if its status is the text V. The answer to one question decides.
pub confirm_validity_iff :
    (device : Bytes) (k : Kernel) (h : History)
    → let q = dm_status (base device) in
      (((confirm_validity device k h).0 ≡ ok tt) ↔ (k.tells_text h q ≡ answer (bytes "V")))
      × ((confirm_validity device k h).1 ≡ q ∷ h)
confirm_validity_iff device k h =
    rw (confirm_validity-eq device k h)
      (check_status-V (k.tells_text h (dm_status (base device))), refl)
