-- ===== src/Verity/HostMount.antt =====
-- `VerityHostMount`: when it mounts, and what it leaves behind when it fails.
use atomfs.Base.{
  ℕ, ◌≡◌, refl, false, Option, none, some, [], ◌∷◌, ◌==◌, arith, inl, inr, Bool-cases,
}
use atomfs.Text.{Bytes, bytes, is_empty}
use atomfs.FilePath.{base}
use atomfs.Numeral.Hex.{hex_decode}
use atomfs.System.{
  Answer, answer, failure, ok, bad_hex, asked_for_verity, History, Kernel, pure, fail, act, mount,
  dm_table, dm_status, crypt_activate, is_not_exist,
}
use atomfs.System.Trace.{
  Ends, Ends-pure, Ends-fail, Ends-bind, Ends-after, Ends-on_failure, Ends-act, Ends-mono,
}
use atomfs.Verity.{
  ms_rdonly, verity_name, verity_device_path, confirm_hash, confirm_validity, activate, open_verity,
  existing_or_new, mount_with_verity, verity_host_mount,
}
use atomfs.Verity.Confirm.{IsAccepted, confirm_hash-IsAccepted, confirm_validity_iff}

-- The newest call binds the device to the root hash: it has shown the hash in the table of an
-- existing device, or it has activated the device with the key that the hash spells.
abbrev pub IsBound : Kernel → Bytes → Bytes → History → Type 0
IsBound k name root_hash (dm_table d ∷ h) =
    (d ≡ base (verity_device_path name)) × IsAccepted root_hash false (k.tells_text h (dm_table d))
IsBound k name root_hash (crypt_activate n key ∷ h) =
    (n ≡ name) × (hex_decode root_hash ≡ some key) × (k.acts h (crypt_activate n key) ≡ answer tt)
IsBound k name root_hash _ = ⊥

activate-IsBound :
    (name root_hash : Bytes) (o : Option Bytes) (k : Kernel) (h : History)
    → hex_decode root_hash ≡ o
    → Ends (activate name root_hash o) k h (λ _ h'. IsBound k name root_hash h')
unfolding activate pure fail act
activate-IsBound name root_hash none k h d = Ends-fail bad_hex
activate-IsBound name root_hash (some key) k h d = record { at = λ u e. ground arith }

open_verity-IsBound :
    (img name root_hash : Bytes) (offset : ℕ) (k : Kernel) (h : History)
    → Ends (open_verity img name root_hash offset) k h (λ _ h'. IsBound k name root_hash h')
unfolding open_verity
open_verity-IsBound img name root_hash offset k h = Ends-after _ _ λ loop h₁.
    Ends-after _ _ λ device h₂. Ends-after _ _ λ u h₃.
      Ends-bind (λ _ h'. IsBound k name root_hash h') _ _
        (Ends-on_failure _ _
          (Ends-after _ _ λ v h₄. activate-IsBound name root_hash (hex_decode root_hash) k h₄ refl))
        λ v h₅ b. Ends-pure (some loop) b

existing_or_new-IsBound :
    {A : Type 0} (img name root_hash : Bytes) (offset : ℕ) (found : Answer A) (k : Kernel)
    (h : History)
    → Ends
        (existing_or_new img name root_hash offset found)
        k
        h
        (λ _ h'. IsBound k name root_hash h')
unfolding existing_or_new
existing_or_new-IsBound img name root_hash offset (answer _) k h =
    Ends-bind (λ _ h'. IsBound k name root_hash h') _ _ (record { at = λ u e. bound e })
      λ u h₁ b. Ends-pure none b
  where
    bound :
        (confirm_hash (verity_device_path name) root_hash false k h).0 ≡ ok tt
        → IsBound k name root_hash (confirm_hash (verity_device_path name) root_hash false k h).1
    bound e =
        let (accepted, asked) =
          confirm_hash-IsAccepted (verity_device_path name) root_hash false k h in
        rw asked (refl, accepted.0 e)
existing_or_new-IsBound img name root_hash offset (failure x) k h =
    elim (Bool-cases (is_not_exist x)) [
      | inl e ↦ rw e (open_verity-IsBound img name root_hash offset k h)
      | inr e ↦ rw e (Ends-fail x)
    ]

-- The two newest calls: the status of the device is V, and then the kernel grants its read-only
-- mount. Before
-- them, the device is bound to the root hash.
abbrev pub IsVerityMount : Kernel → Bytes → Bytes → Bytes → Bytes → History → Type 0
IsVerityMount k name fs_type mountpoint root_hash (c ∷ dm_status d ∷ h) =
    (c ≡ mount (verity_device_path name) mountpoint fs_type ms_rdonly [])
    × (d ≡ base (verity_device_path name))
    × (k.acts (dm_status d ∷ h) c ≡ answer tt)
    × (k.tells_text h (dm_status d) ≡ answer (bytes "V"))
    × IsBound k name root_hash h
IsVerityMount k name fs_type mountpoint root_hash _ = ⊥

abbrev IsChecked : Kernel → Bytes → Bytes → History → Type 0
IsChecked k name root_hash (dm_status d ∷ h) =
    (d ≡ base (verity_device_path name))
    × (k.tells_text h (dm_status d) ≡ answer (bytes "V"))
    × IsBound k name root_hash h
IsChecked k name root_hash _ = ⊥

confirm_validity-IsChecked :
    (name root_hash : Bytes) (k : Kernel) (h : History)
    → IsBound k name root_hash h
    → Ends (confirm_validity (verity_device_path name)) k h (λ _ h'. IsChecked k name root_hash h')
confirm_validity-IsChecked name root_hash k h b = record {
  at = λ u e.
      let (valid, asked) = confirm_validity_iff (verity_device_path name) k h in
      rw asked (refl, valid.0 e, b);
}

mount_checked :
    (name fs_type mountpoint root_hash : Bytes) (k : Kernel) (h h' : History)
    → IsChecked k name root_hash h
    → k.acts h (mount (verity_device_path name) mountpoint fs_type ms_rdonly []) ≡ answer tt
    → h' ≡ mount (verity_device_path name) mountpoint fs_type ms_rdonly [] ∷ h
    → IsVerityMount k name fs_type mountpoint root_hash h'
mount_checked name fs_type mountpoint root_hash k (dm_status d ∷ h) h' (p, v, b) a e =
    rw e (refl, p, a, v, b)
mount_checked name fs_type mountpoint root_hash k _ h' c a e = absurd c

mount_with_verity-IsVerityMount :
    (img fs_type mountpoint root_hash : Bytes) (offset : ℕ) (k : Kernel) (h : History)
    → Ends
        (mount_with_verity img fs_type mountpoint root_hash offset)
        k
        h
        (λ _ h'. IsVerityMount k (verity_name (base img)) fs_type mountpoint root_hash h')
unfolding mount_with_verity
mount_with_verity-IsVerityMount img fs_type mountpoint root_hash offset k h =
    let name = verity_name (base img) in
    Ends-after _ _ λ found h₁.
      Ends-bind (λ _ h'. IsBound k name root_hash h') _ _
        (existing_or_new-IsBound img name root_hash offset found k h₁)
        λ opened h₂ b.
          Ends-bind (λ _ h'. IsChecked k name root_hash h') _ _
            (confirm_validity-IsChecked name root_hash k h₂ b)
            λ u h₃ c. Ends-on_failure _ _ (
              Ends-mono _ (Ends-act _)
                λ v h₄ (a, e). mount_checked name fs_type mountpoint root_hash k h₃ h₄ c a e)

-- With a root hash, a mount that succeeds has mounted the verity device read-only, directly after
-- the device mapper has called it valid, and only after the device was bound to that root hash.
pub verity_host_mount-IsVerityMount :
    (img fs_type mountpoint root_hash : Bytes) (size offset : ℕ) (k : Kernel) (h : History)
    → is_empty root_hash ≡ false
    → Ends
        (verity_host_mount img fs_type mountpoint root_hash size offset)
        k
        h
        (λ _ h'. IsVerityMount k (verity_name (base img)) fs_type mountpoint root_hash h')
unfolding verity_host_mount
verity_host_mount-IsVerityMount img fs_type mountpoint root_hash size offset k h n =
    elim (Bool-cases (offset == size)) [
      | inl e ↦ rw (e, n) (Ends-fail asked_for_verity)
      | inr e ↦
          rw (e, n) (mount_with_verity-IsVerityMount img fs_type mountpoint root_hash offset k h)
    ]
