-- ===== src/Tests/Flags.antt =====
-- The flags of the commands.
use atomfs.Base.{ℕ, ◌≡◌, refl, false, [], ◌∷◌, inl, inr}
use atomfs.Text.{bytes, text_eq}
use atomfs.System.{errno, pure, fail, Exec}
use atomfs.Command.Main.{Context, umount_cmd, action-DeclaresAll}
use atomfs.Tests.Molecules.{layout}
use atomfs.Tests.Data.{setup}

abbrev exit : ℕ → Exec (Unit {0})
exit n = fail (errno n)

abbrev plainly : Context
plainly = record {
  args = bytes "/mnt" ∷ [];
  bool = λ _. false;
  string = λ _. bytes "/run/atomfs";
  is_set = λ _. false;
}

-- Another value of a flag that `umount` does not have.
abbrev persistently : Context
persistently = record plainly { is_set = λ name. text_eq name (bytes "persist") }

action-DeclaresAll_example :
    (umount_cmd setup (λ _. pure layout) (pure tt) exit).action plainly
    ≡ (umount_cmd setup (λ _. pure layout) (pure tt) exit).action persistently
unfolding text_eq
action-DeclaresAll_example =
    action-DeclaresAll setup (λ _. pure layout) (pure tt) exit (pure tt)
      (umount_cmd setup (λ _. pure layout) (pure tt) exit) plainly persistently (inr (inl refl))
      (refl, (((refl, refl), tt), tt))
