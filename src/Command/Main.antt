-- ===== src/Command/Main.antt =====
-- cmd/atomfs/main.go, and the commands as cmd/atomfs/mount.go, umount.go and verify.go describe them to
-- the command-line library, which cuts the arguments into flags and calls an action.
use atomfs.Base.{
  ℕ, ◌≡◌, refl, sym, subst, Bool, none, some, List, [], ◌∷◌, All, In, inl, inr, if◌then◌else◌,
}
use atomfs.Text.{Bytes, bytes}
use atomfs.System.{Answer, answer, failure, Exec, pure, attempt, ◌>>=◌}
use atomfs.Molecule.Oci.{Engine}
use atomfs.Layer.{Setup}
use atomfs.Command.{MountFlags, do_mount, do_umount, do_verify}

-- `cli.Context`: what the library has read of the arguments.
pub record Context : Type 0 where
  pub args : List Bytes
  pub bool : Bytes → Bool
  pub string : Bytes → Bytes
  pub is_set : Bytes → Bool

pub data FlagKind : Type 0 where
  bool_flag string_flag : FlagKind

-- `cli.BoolFlag`, `cli.StringFlag`, with the names that the library cuts at the commas.
pub record Flag : Type 0 where
  pub kind : FlagKind
  pub names : List Bytes

abbrev pub bool_named : Bytes → Flag
bool_named name = record { kind = bool_flag; names = name ∷ [] }

abbrev pub string_named : Bytes → Flag
string_named name = record { kind = string_flag; names = name ∷ [] }

-- `cli.Command`
pub record CliCommand : Type 0 where
  pub name : Bytes
  pub flags : List Flag
  pub action : Context → Exec (Unit {0})

-- `cli.App`
pub record App : Type 0 where
  pub name : Bytes
  pub commands : List CliCommand
  pub flags : List Flag
  pub before : Context → Exec (Unit {0})

-- What `doMount` reads of its flags.
abbrev pub mount_flags : Context → MountFlags
mount_flags c = record {
  persist = if c.is_set (bytes "persist") then some (c.string (bytes "persist")) else none;
  writeable = c.bool (bytes "writeable");
  allow_missing_verity = c.bool (bytes "allow-missing-verity");
  metadir = c.string (bytes "metadir");
}

-- The OCI library, `os.Exit`, the level of the log and the command-line library are arguments.
module _ {Desc Manifest Image : Type 0} (setup : Setup)
    (open_layout : Bytes → Exec (Engine Desc Manifest Image)) (close_layout : Exec (Unit {0}))
    (exit : ℕ → Exec (Unit {0})) where
  -- `mountCmd`
  abbrev pub mount_cmd : CliCommand
  mount_cmd = record {
    name = bytes "mount";
    flags =
        string_named (bytes "persist")
        ∷ record { kind = bool_flag; names = bytes "writeable" ∷ bytes "writable" ∷ [] }
        ∷ bool_named (bytes "allow-missing-verity")
        ∷ string_named (bytes "metadir")
        ∷ [];
    action = λ c. do_mount setup open_layout close_layout (exit 1) (mount_flags c) c.args;
  }

  -- `umountCmd`
  abbrev pub umount_cmd : CliCommand
  umount_cmd = record {
    name = bytes "umount";
    flags = string_named (bytes "metadir") ∷ [];
    action = λ c. do_umount (c.string (bytes "metadir")) c.args;
  }

  -- `verifyCmd`
  abbrev pub verify_cmd : CliCommand
  verify_cmd = record {
    name = bytes "verify";
    flags = string_named (bytes "metadir") ∷ [];
    action = λ c. do_verify (c.string (bytes "metadir")) c.args;
  }

  abbrev pub app : Exec (Unit {0}) → App
  app set_debug_level = record {
    name = bytes "atomfs";
    commands = mount_cmd ∷ umount_cmd ∷ verify_cmd ∷ [];
    flags = bool_named (bytes "debug") ∷ [];
    before = λ c. if c.bool (bytes "debug") then set_debug_level else pure tt;
  }

  abbrev pub exit_on : Answer (Unit {0}) → Exec (Unit {0})
  exit_on (failure e) = exit 1
  exit_on (answer _) = pure tt

  -- `main`
  unfoldable pub main :
      Exec (Unit {0}) → (App → List Bytes → Exec (Unit {0})) → List Bytes → Exec (Unit {0})
  main set_debug_level run_app os_args = do
    done ← attempt (run_app (app set_debug_level) os_args)
    exit_on done

  -- Two contexts with the same arguments that agree on a flag, read in the way of its kind.
  abbrev pub SameFlag : Context → Context → FlagKind → Bytes → Type 0
  SameFlag c d bool_flag name = c.bool name ≡ d.bool name
  SameFlag c d string_flag name = (c.string name ≡ d.string name) × (c.is_set name ≡ d.is_set name)

  abbrev pub Agree : Context → Context → List Flag → Type 0
  Agree c d flags = (c.args ≡ d.args) × All (λ f. All (SameFlag c d f.kind) f.names) flags

  abbrev pub DeclaresAll : CliCommand → Context → Context → Type 0
  DeclaresAll command c d = Agree c d command.flags → command.action c ≡ command.action d

  mount_cmd-DeclaresAll : (c d : Context) → DeclaresAll mount_cmd c d
  mount_cmd-DeclaresAll c d (args, (((p, s), _), ((w, (w', _)), ((v, _), (((m, m'), _), _))))) =
      simp (args, p, s, w, v, m) refl

  umount_cmd-DeclaresAll : (c d : Context) → DeclaresAll umount_cmd c d
  umount_cmd-DeclaresAll c d (args, (((m, m'), _), _)) = simp (args, m) refl

  verify_cmd-DeclaresAll : (c d : Context) → DeclaresAll verify_cmd c d
  verify_cmd-DeclaresAll c d (args, (((m, m'), _), _)) = simp (args, m) refl

  -- Every action reads only flags that its command declares, each in the way of its kind: with contexts
  -- that agree on them and on the arguments it is the same.
  pub action-DeclaresAll :
      (set_debug_level : Exec (Unit {0})) (command : CliCommand) (c d : Context)
      → In command (app set_debug_level).commands
      → Agree c d command.flags
      → command.action c ≡ command.action d
  action-DeclaresAll level command c d (inl e) =
      subst (λ x. DeclaresAll x c d) (sym e) (mount_cmd-DeclaresAll c d)
  action-DeclaresAll level command c d (inr (inl e)) =
      subst (λ x. DeclaresAll x c d) (sym e) (umount_cmd-DeclaresAll c d)
  action-DeclaresAll level command c d (inr (inr (inl e))) =
      subst (λ x. DeclaresAll x c d) (sym e) (verify_cmd-DeclaresAll c d)
  action-DeclaresAll level command c d (inr (inr (inr m))) = absurd (m tt)
