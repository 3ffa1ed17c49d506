-- ===== src/Molecule/Atoms/Confirmed.antt =====
-- What `mountUnderlyingAtoms` confirms of an atom that is mounted already.
use atomfs.Base.{◌≡◌, refl, false, some, List, ◌∷◌}
use atomfs.Text.{Bytes, bytes, is_empty}
use atomfs.FilePath.{base}
use atomfs.System.{answer, ok, History, Kernel, dm_table, dm_status}
use atomfs.System.Trace.{Ends, Ends-bind}
use atomfs.Mountinfo.{Mount, parse_mounts, find_mount}
use atomfs.Verity.Confirm.{IsAccepted, confirm_hash-IsAccepted, confirm_validity_iff}
use atomfs.Molecule.Atoms.{confirm_mounted}

-- The two newest calls, behind `before`, confirm the device of a mount: its table has the root hash,
-- and its status is V.
abbrev pub IsConfirmed : Kernel → Bytes → Bytes → History → History → Type 0
IsConfirmed k source root_hash before h =
    (h ≡ dm_status (base source) ∷ dm_table (base source) ∷ before)
    × (k.tells_text (dm_table (base source) ∷ before) (dm_status (base source))
        ≡ answer (bytes "V"))
    × IsAccepted root_hash false (k.tells_text before (dm_table (base source)))

pub confirm_mounted-IsConfirmed :
    (source root_hash : Bytes) (k : Kernel) (h : History)
    → is_empty root_hash ≡ false
    → Ends
        (confirm_mounted false source root_hash)
        k
        h
        (λ _ h'. IsConfirmed k source root_hash h h')
unfolding confirm_mounted
confirm_mounted-IsConfirmed source root_hash k h n =
    let (accepted, asked) = confirm_hash-IsAccepted source root_hash false k h in
    rw n (
      Ends-bind
        (λ _ h'.
          (h' ≡ dm_table (base source) ∷ h)
          × IsAccepted root_hash false (k.tells_text h (dm_table (base source))))
        _ _ (record { at = λ u e. (asked, accepted.0 e) })
        λ u h₁ (same, a).
          let (valid, asked') = confirm_validity_iff source k h₁ in
          record { at = λ v e. rw (asked', same) (refl, rw (← same) (valid.0 e), a) })

-- The mount table, read just before, has a mount at the target, whose device is then confirmed.
pub record IsFound (k : Kernel) (target root_hash : Bytes) (h : History) : Type 0 where
  pub asked : History
  pub mounts : List Mount
  pub listed : (parse_mounts k asked).0 ≡ ok mounts
  pub found : Mount
  pub at_target : find_mount mounts target ≡ some found
  pub confirmed : IsConfirmed k found.source root_hash (parse_mounts k asked).1 h
