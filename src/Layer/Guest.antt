-- ===== src/Layer/Guest.antt =====
-- Mounting a layer in user space: pkg/squashfs/fs.go, pkg/erofs/fs.go, pkg/common/mount.go and the
-- functions of pkg/squashfs/squashfs.go and pkg/erofs/erofs.go that start the programs.
use atomfs.Base.{
  ℕ, zero, suc, ◌≡◌, refl, Bool, true, false, not, Option, none, some, List, [], ◌∷◌, if◌then◌else◌,
  ◌==◌,
}
use atomfs.Text.{Bytes, is_empty}
use atomfs.FilePath.{is_abs, abs}
use atomfs.System.{
  Answer, answer, failure, FileInfo, Call, mount, unmount, loop_attach, loop_detach, crypt_init,
  crypt_format, crypt_load, crypt_volume_key, crypt_activate, crypt_deactivate, dm_table, dm_status,
  History, Kernel, Exec, ok,
}
use atomfs.System.Keeps.{
  Keeps, Keeps-pure, Keeps-fail, Keeps-lift, Keeps-known, Keeps-if, Keeps-attempt, Keeps-bind,
  Keeps-act, Keeps-act_ignoring, Keeps-ask_text, Keeps-ask_info, Keeps-ask_number, Keeps-always,
  bind-value,
}
use atomfs.MediaType.{Filesystem, squashfs, erofs}
use atomfs.Mountinfo.{find_mount_at, parse_mounts}
use atomfs.Mountinfo as Mountinfo
use atomfs.Host.{am_host_root, file_changed}
use atomfs.Fuse.{
  FuseInfo, prepare, wrapped, unchanged, poll, polled, squash_gives_up, erofs_gives_up, heard,
  run_squash_fuse, squash_fuse, run_erofs_fuse, erofs_fuse,
}
use atomfs.Device.{is_mountpoint, guest_mount}
use atomfs.Layer.{Setup, fuse_of, mount_layer}

-- The calls that only a privileged process is granted.
pub is_privileged : Call → Bool
is_privileged (mount _ _ _ _ _) = true
is_privileged (unmount _) = true
is_privileged (loop_attach _) = true
is_privileged (loop_detach _) = true
is_privileged (crypt_init _) = true
is_privileged (crypt_format _ _) = true
is_privileged (crypt_load _ _) = true
is_privileged (crypt_volume_key _) = true
is_privileged (crypt_activate _ _) = true
is_privileged (crypt_deactivate _) = true
is_privileged (dm_table _) = true
is_privileged (dm_status _) = true
is_privileged _ = false

-- Those of a history.
pub privileged : History → List Call
unfolding is_privileged
privileged [] = []
privileged (c ∷ h) = let rest = privileged h in if is_privileged c then c ∷ rest else rest

module _ (u : List Call) where
  abbrev Tame : History → Type 0
  Tame h = privileged h ≡ u

  abs-Tame : (p : Bytes) → Keeps Tame (abs p)
  unfolding abs privileged is_privileged
  abs-Tame p =
      Keeps-if (is_abs p) _ _ (Keeps-pure _)
        (Keeps-bind _ _ (Keeps-ask_text _ (λ h q. q)) λ wd. Keeps-pure _)

  is_mountpoint-Tame : (p : Bytes) → Keeps Tame (is_mountpoint p)
  unfolding is_mountpoint Mountinfo.is_mountpoint find_mount_at parse_mounts privileged
      is_privileged
  is_mountpoint-Tame p =
      Keeps-bind _ _
        (Keeps-attempt _ (
          Keeps-bind _ _
            (Keeps-bind _ _ (Keeps-bind _ _ (Keeps-ask_text _ (λ h q. q)) λ text. Keeps-lift _)
              λ ms. Keeps-pure _)
            λ o. Keeps-pure _))
        λ mounted. Keeps-pure _

  prepare-Tame : (logf dir : Bytes) → Keeps Tame (prepare logf dir)
  unfolding prepare privileged is_privileged
  prepare-Tame logf dir = Keeps-bind _ _ (Keeps-ask_number _ (λ h q. q)) λ log.
      Keeps-bind _ _ (Keeps-ask_info _ (λ h q. q))
        λ fi. Keeps-if fi.is_symlink _ _ (Keeps-fail _) (Keeps-pure _)

  squash_gives_up-Tame : Keeps Tame squash_gives_up
  unfolding squash_gives_up privileged is_privileged
  squash_gives_up-Tame = Keeps-bind _ _ (Keeps-attempt _ (Keeps-act _ (λ h q. q))) from
    where
      from : (killed : Answer (Unit {0})) → Keeps Tame (wrapped killed)
      from (answer v) = Keeps-pure tt
      from (failure e) = Keeps-fail e

  erofs_gives_up-Tame : Keeps Tame erofs_gives_up
  unfolding erofs_gives_up privileged is_privileged
  erofs_gives_up-Tame = Keeps-act_ignoring _ (λ h q. q)

  module _ (fi : FileInfo) (dir : Bytes) (give_up : Exec (Unit {0}))
      (quiet : Keeps Tame give_up) where
    unchanged-Tame :
        (again : Exec (Option (Unit {0})))
        → Keeps Tame again
        → Keeps Tame (unchanged fi dir give_up again)
    unfolding privileged is_privileged
    unchanged-Tame again q = Keeps-bind _ _ (Keeps-ask_number _ (λ h p. p)) λ state.
        Keeps-if (not (state == 0)) _ _ (Keeps-fail _) (
          Keeps-bind _ _ (Keeps-ask_number _ (λ h p. p)) λ time.
            Keeps-if _ _ _ (Keeps-bind _ _ quiet λ v. Keeps-pure _)
              (Keeps-bind _ _ (Keeps-act_ignoring _ (λ h p. p)) λ v. q))

    poll-Tame : (fuel : ℕ) → Keeps Tame (poll fi dir give_up fuel)
    unfolding poll file_changed privileged is_privileged
    poll-Tame zero = Keeps-pure none
    poll-Tame (suc fuel) =
        Keeps-bind _ _
          (Keeps-bind _ _ (Keeps-attempt _ (Keeps-ask_info _ (λ h p. p))) λ b. Keeps-pure _)
          λ changed. Keeps-if changed _ _ (Keeps-pure _) (unchanged-Tame _ (poll-Tame fuel))

  polled-Tame : (done : Option (Unit {0})) → Keeps Tame (polled done)
  polled-Tame none = Keeps-fail _
  polled-Tame (some v) = Keeps-pure tt

  heard-Tame : (ended : Answer ℕ) → Keeps Tame (heard ended)
  heard-Tame (failure e) = squash_gives_up-Tame
  heard-Tame (answer byte) = Keeps-if _ _ _ (Keeps-pure tt) (Keeps-fail _)

  run_squash_fuse-Tame :
      (info : FuseInfo) (notify file dir : Bytes)
      → Keeps Tame (run_squash_fuse info notify file dir)
  unfolding run_squash_fuse privileged is_privileged
  run_squash_fuse-Tame info notify file dir = Keeps-bind _ _ (prepare-Tame _ dir) λ fi.
      Keeps-bind _ _ (Keeps-act _ (λ h p. p)) λ v. Keeps-bind _ _ (Keeps-act _ (λ h p. p)) λ w.
        Keeps-if info.supports_notify _ _
          (Keeps-bind _ _ (Keeps-attempt _ (Keeps-ask_number _ (λ h p. p))) heard-Tame)
          (Keeps-bind _ _ (poll-Tame fi dir squash_gives_up squash_gives_up-Tame _) polled-Tame)

  squash_fuse-Tame : (info : FuseInfo) (file dir : Bytes) → Keeps Tame (squash_fuse info file dir)
  unfolding squash_fuse privileged is_privileged
  squash_fuse-Tame info file dir = Keeps-if (is_empty info.path) _ _ (Keeps-fail _) (
      Keeps-if (not info.supports_notify) _ _ (run_squash_fuse-Tame info [] file _) (
        Keeps-bind _ _ (Keeps-ask_text _ (λ h p. p)) λ sock.
          Keeps-always _ _
            (Keeps-bind _ _ (Keeps-act _ (λ h p. p)) λ v. run_squash_fuse-Tame info _ file _)
            (Keeps-act_ignoring _ (λ h p. p))))

  erofs_fuse-Tame : (info : FuseInfo) (file dir : Bytes) → Keeps Tame (erofs_fuse info file dir)
  unfolding erofs_fuse run_erofs_fuse privileged is_privileged
  erofs_fuse-Tame info file dir = Keeps-if (is_empty info.path) _ _ (Keeps-fail _) (
      Keeps-bind _ _ (prepare-Tame _ _) λ fi. Keeps-bind _ _ (Keeps-act_ignoring _ (λ h p. p)) λ v.
        Keeps-bind _ _ (Keeps-act _ (λ h p. p))
          λ w. Keeps-bind _ _ (poll-Tame fi _ erofs_gives_up erofs_gives_up-Tame _) polled-Tame)

  fuse_of-Tame :
      (setup : Setup) (fs : Filesystem) (img dir : Bytes) → Keeps Tame (fuse_of setup fs img dir)
  fuse_of-Tame setup squashfs img dir = squash_fuse-Tame setup.squash_info img dir
  fuse_of-Tame setup erofs img dir = erofs_fuse-Tame setup.erofs_info img dir

  guest_mount-Tame :
      (setup : Setup) (fs : Filesystem) (img dir : Bytes)
      → Keeps Tame (guest_mount img dir (fuse_of setup fs))
  unfolding guest_mount privileged is_privileged
  guest_mount-Tame setup fs img dir = Keeps-bind _ _ (is_mountpoint-Tame dir) λ mounted.
      Keeps-if mounted _ _ (Keeps-fail _) (
        Keeps-bind _ _ (abs-Tame img) λ img'.
          Keeps-bind _ _ (abs-Tame dir)
            λ dir'. Keeps-bind _ _ (fuse_of-Tame setup fs img' dir') λ v. Keeps-act _ (λ h p. p))

  am_host_root-Tame : Keeps Tame am_host_root
  unfolding am_host_root privileged is_privileged
  am_host_root-Tame = Keeps-bind _ _ (Keeps-known _) λ uid.
      Keeps-if _ _ _ (Keeps-pure _)
        (Keeps-bind _ _ (Keeps-attempt _ (Keeps-ask_text _ (λ h p. p))) λ text. Keeps-pure _)

-- Where the user is not taken for the root of the host, mounting a layer makes no privileged call,
-- whether it succeeds or not: none for a mount, a loop device or a verity device.
pub mount_layer-privileged :
    (setup : Setup) (fs : Filesystem) (img mountpoint root_hash : Bytes) (k : Kernel) (h : History)
    → (am_host_root k h).0 ≡ ok false
    → privileged (mount_layer setup fs img mountpoint root_hash k h).1 ≡ privileged h
unfolding mount_layer
mount_layer-privileged setup fs img mountpoint root_hash k h guest =
    bind-value _ _ false k h guest ((am_host_root-Tame (privileged h)).at k h refl)
      (guest_mount-Tame (privileged h) setup fs img mountpoint)
