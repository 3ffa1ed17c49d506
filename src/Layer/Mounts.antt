-- ===== src/Layer/Mounts.antt =====
-- What a mounted layer rests on.
use atomfs.Base.{◌≡◌, refl, true, false}
use atomfs.Text.{Bytes, is_empty}
use atomfs.FilePath.{base}
use atomfs.System.{Answer, answer, failure, ok, History, Kernel}
use atomfs.System.Trace.{
  Ends, Ends-pure, Ends-fail, Ends-bind, Ends-after, Ends-attempt, Ends-value,
}
use atomfs.MediaType.{Filesystem}
use atomfs.Host.{am_host_root}
use atomfs.Verity.{verity_name}
use atomfs.Verity.HostMount.{IsVerityMount, verity_host_mount-IsVerityMount}
use atomfs.Layer.{Setup, type_name, host_mount, or_guest, mount_layer}

module _ (setup : Setup) (fs : Filesystem) (img mountpoint root_hash : Bytes) (k : Kernel)
    (n : is_empty root_hash ≡ false) where
  abbrev Goal : History → Type 0
  Goal h' = IsVerityMount k (verity_name (base img)) (type_name fs) mountpoint root_hash h'

  host_mount-IsVerityMount :
      (h : History) → Ends (host_mount setup fs img mountpoint root_hash) k h (λ _ h'. Goal h')
  unfolding host_mount
  host_mount-IsVerityMount h = Ends-after _ _ λ location h₁.
      verity_host_mount-IsVerityMount img (type_name fs) mountpoint root_hash location.0 location.1
        k h₁ n

  or_guest-IsVerityMount :
      (mounted : Answer (Unit {0})) (h : History)
      → ((u : Unit {0}) → mounted ≡ answer u → Goal h)
      → Ends (or_guest setup fs img mountpoint root_hash mounted) k h (λ _ h'. Goal h')
  or_guest-IsVerityMount (answer u) h p = Ends-pure tt (p u refl)
  or_guest-IsVerityMount (failure e) h p = rw n (Ends-fail e)

  -- For the root of the host, a layer with a root hash that is mounted is mounted through a verity
  -- device: there is no way back to a mount in user space.
  pub mount_layer-IsVerityMount :
      (h : History)
      → (am_host_root k h).0 ≡ ok true
      → Ends
          (mount_layer setup fs img mountpoint root_hash)
          k
          h
          (λ _ h'. IsVerityMount k (verity_name (base img)) (type_name fs) mountpoint root_hash h')
  unfolding mount_layer
  mount_layer-IsVerityMount h root =
      Ends-bind (λ host _. host ≡ true) _ _ (Ends-value am_host_root k h true root)
        λ host h₁ e. rw e (
          Ends-bind (λ mounted h₂. (u : Unit {0}) → mounted ≡ answer u → Goal h₂) _ _
            (Ends-attempt _ (host_mount-IsVerityMount h₁))
            λ mounted h₂ p. or_guest-IsVerityMount mounted h₂ p)
