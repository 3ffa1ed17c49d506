-- ===== src/Fuse.antt =====
-- squashFuse and erofsFuse of pkg/squashfs/squashfs.go and pkg/erofs/erofs.go: the programs that
-- serve an image in user space, how they are found, started and waited for.
pub mod Poll
pub mod Outcome
use atomfs.Base.{
  ℕ, zero, suc, Bool, true, false, not, Option, none, some, List, [], ◌∷◌, ◌++◌, ◌==◌, ltb,
  if◌then◌else◌,
}
use atomfs.Text.{Bytes, bytes, is_empty, split, trim_suffix}
use atomfs.FilePath.{join_path, dir, base}
use atomfs.System.{
  Answer, answer, failure, Result, ok, panic, FileInfo, Exec, pure, fail, lift, ◌>>=◌, ◌>>◌,
  attempt, always, act, act_ignoring, ask_text, ask_info, ask_number, lstat, create, write_file,
  remove_all, output, start, exited, elapsed, kill, mkfifo, notified, mkdir_temp, sleep,
  out_of_fuel, fuse_not_found, symlink_target, fuse_exited, fuse_error,
}
use atomfs.Host.{which, file_changed}

-- `squashFuseInfoStruct` and, without a notification, `erofsFuseInfoStruct`.
pub record FuseInfo : Type 0 where
  pub path : Bytes
  pub version : Bytes
  pub supports_notify : Bool

abbrev pub no_fuse : FuseInfo
no_fuse = record { path = []; version = []; supports_notify = false }

abbrev pub first_of : List Bytes → Bytes
first_of [] = []
first_of (line ∷ _) = line

-- `strings.Split(firstLine, " ")[1]`
abbrev pub second_of : List Bytes → Result Bytes
second_of (_ ∷ word ∷ _) = ok word
second_of _ = panic

abbrev pub text_or_empty : Answer Bytes → Bytes
text_or_empty (answer text) = text
text_or_empty (failure _) = []

-- The version that stands in the first line of what the program writes; its error is dropped.
unfoldable pub fuse_version : Bytes → Exec Bytes
fuse_version program = do
  out ← attempt (ask_text (output program []))
  lift (second_of (split b' ' (first_of (split b'\n' (text_or_empty out)))))

-- `sqfuseSupportsMountNotification`; the semver library decides which versions are from 0.5.0 on.
unfoldable pub supports_mount_notification : (Bytes → Bool) → Bytes → Exec (Bytes × Bool)
supports_mount_notification at_least_0_5_0 program = do
  version ← fuse_version program
  pure (version, at_least_0_5_0 version)

abbrev pub squash_info_of : (Bytes → Bool) → Bytes → Exec FuseInfo
squash_info_of at_least_0_5_0 path = if is_empty path then pure no_fuse else do
  found ← supports_mount_notification at_least_0_5_0 path
  pure (record { path = path; version = found.0; supports_notify = found.1 })

-- `findSquashFuseInfo`
unfoldable pub find_squash_fuse_info : (Bytes → Bool) → Exec FuseInfo
find_squash_fuse_info at_least_0_5_0 = do
  ll ← which (bytes "squashfuse_ll")
  path ← (if not (is_empty ll) then pure ll else which (bytes "squashfuse"))
  squash_info_of at_least_0_5_0 path

-- `erofsfuseVersion`
unfoldable pub erofsfuse_version : Bytes → Exec Bytes
erofsfuse_version program = fuse_version program

-- `findErofsFuseInfo`
unfoldable pub find_erofs_fuse_info : Exec FuseInfo
find_erofs_fuse_info = do
  path ← which (bytes "erofsfuse")
  if is_empty path then pure no_fuse else do
    version ← erofsfuse_version path
    pure (record { path = path; version = version; supports_notify = false })

-- The log file beside the directory.
abbrev pub log_of : Bytes → Bytes → Bytes
log_of suffix extract_dir =
    join_path (dir extract_dir ∷ (bytes "." ++ (base extract_dir ++ suffix)) ∷ [])

-- What both functions do before they start the program: the log, and the state of the directory.
unfoldable pub prepare : Bytes → Bytes → Exec FileInfo
prepare logf extract_dir = do
  log ← ask_number (create logf)
  fi_pre ← ask_info (lstat extract_dir)
  if fi_pre.is_symlink then fail symlink_target else pure fi_pre

-- `errors.Wrapf(err, …)`: no error is made of none.
abbrev pub wrapped : Answer (Unit {0}) → Exec (Unit {0})
wrapped (answer _) = pure tt
wrapped (failure e) = fail e

-- In milliseconds.
abbrev pub time_limit : ℕ
time_limit = 30000

-- The rounds of the loop that waits for the directory to change: it sleeps 50 milliseconds in each.
abbrev pub poll_fuel : ℕ
poll_fuel = 602

module _ (fi_pre : FileInfo) (extract_dir : Bytes) (give_up : Exec (Unit {0})) where
  abbrev pub unchanged : Exec (Option (Unit {0})) → Exec (Option (Unit {0}))
  unchanged again = do
    state ← ask_number exited
    if not (state == 0) then fail fuse_exited else do
      time ← ask_number elapsed
      if ltb time_limit time then (do give_up; pure (some tt)) else (do act_ignoring sleep; again)

  -- The loop; `none`: the fuel ran out.
  unfoldable pub poll : ℕ → Exec (Option (Unit {0}))
  poll zero = pure none
  poll (suc fuel) = do
    changed ← file_changed fi_pre extract_dir
    if changed then pure (some tt) else unchanged (poll fuel)

abbrev pub polled : Option (Unit {0}) → Exec (Unit {0})
polled none = fail out_of_fuel
polled (some _) = pure tt

-- `cmd.Process.Kill()`, whose error is the one that is returned.
unfoldable pub squash_gives_up : Exec (Unit {0})
squash_gives_up = do killed ← attempt (act kill); wrapped killed

-- The error that is wrapped here is that of `cmd.Start`, and there is none.
unfoldable pub erofs_gives_up : Exec (Unit {0})
erofs_gives_up = act_ignoring kill

-- The `select` on the end of the program and the byte in the pipe.
abbrev pub heard : Answer ℕ → Exec (Unit {0})
heard (failure _) = squash_gives_up
heard (answer byte) = if byte == b's' then pure tt else fail fuse_error

-- The part of `squashFuse` from the log file on, with the pipe's path, or the empty text.
unfoldable pub run_squash_fuse : FuseInfo → Bytes → Bytes → Bytes → Exec (Unit {0})
run_squash_fuse info notify_path squash_file extract_dir = do
  let logf = log_of (bytes "-squashfuse.log") extract_dir
  fi_pre ← prepare logf extract_dir
  act (write_file logf)
  let options =
      (if info.supports_notify
        then bytes "allow_other,debug,notify_pipe=" ++ notify_path
        else bytes "allow_other,debug")
  act (start info.path (bytes "-f" ∷ bytes "-o" ∷ options ∷ squash_file ∷ extract_dir ∷ []))
  if info.supports_notify
      then (do ended ← attempt (ask_number (notified notify_path)); heard ended)
      else (do done ← poll fi_pre extract_dir squash_gives_up poll_fuel; polled done)

-- `squashFuse`, behind `once.Do`.
unfoldable pub squash_fuse : FuseInfo → Bytes → Bytes → Exec (Unit {0})
squash_fuse info squash_file extract_dir =
    if is_empty info.path
    then fail fuse_not_found
    else if not info.supports_notify
    then run_squash_fuse info [] squash_file (trim_suffix extract_dir (bytes "/"))
    else do
      sockdir ← ask_text (mkdir_temp [] (bytes "sock"))
      always
          (do
            let notify_path = join_path (sockdir ∷ bytes "notifypipe" ∷ [])
            act (mkfifo notify_path)
            run_squash_fuse info notify_path squash_file (trim_suffix extract_dir (bytes "/")))
          (act_ignoring (remove_all sockdir))

unfoldable pub run_erofs_fuse : FuseInfo → Bytes → Bytes → Exec (Unit {0})
run_erofs_fuse info erofs_file extract_dir = do
  let logf = log_of (bytes "-erofsfuse.log") extract_dir
  fi_pre ← prepare logf extract_dir
  act_ignoring (write_file logf)
  act (start info.path (bytes "-f" ∷ bytes "-o" ∷ bytes "debug" ∷ erofs_file ∷ extract_dir ∷ []))
  done ← poll fi_pre extract_dir erofs_gives_up poll_fuel
  polled done

-- `erofsFuse`, behind `once.Do`.
unfoldable pub erofs_fuse : FuseInfo → Bytes → Bytes → Exec (Unit {0})
erofs_fuse info erofs_file extract_dir =
    if is_empty info.path
    then fail fuse_not_found
    else run_erofs_fuse info erofs_file (trim_suffix extract_dir (bytes "/"))
