-- ===== src/Fuse/Outcome.antt =====
-- What `squashFuse` and `erofsFuse` refuse, and what the look at the program's version makes of its
-- text.
use atomfs.Base.{ℕ, ◌≡◌, refl, true, [], ◌∷◌, ◌++◌}
use atomfs.Text.{Bytes}
use atomfs.Text.Laws.{Lacks, sep_test, split-Lacks, split_at}
use atomfs.System.{
  answer, FileInfo, err, panic, History, Kernel, fail, lift, ◌>>=◌, attempt, ask_text, ask_info,
  ask_number, lstat, create, output, symlink_target,
}
use atomfs.Fuse.{fuse_version, prepare}

-- A program is never started on a symbolic link: the error comes before any other call.
prepare_symlink :
    (logf dir : Bytes) (fi : FileInfo) (fd : ℕ) (k : Kernel) (h : History)
    → k.tells_number h (create logf) ≡ answer fd
    → k.tells_info (create logf ∷ h) (lstat dir) ≡ answer fi
    → fi.is_symlink ≡ true
    → prepare logf dir k h ≡ (err symlink_target, lstat dir ∷ create logf ∷ h)
unfolding prepare ◌>>=◌ ask_number ask_info fail
prepare_symlink logf dir fi fd k h c l s = rw (c, l, s) refl

-- The version is the second word of the first line, and without a space in that line the look at
-- it is a panic.
fuse_version_panics :
    (program line rest text : Bytes) (k : Kernel) (h : History)
    → Lacks (sep_test b'\n') line
    → Lacks (sep_test b' ') line
    → k.tells_text h (output program []) ≡ answer text
    → (text ≡ line ++ (b'\n' ∷ rest))
    → fuse_version program k h ≡ (panic, output program [] ∷ h)
unfolding fuse_version ◌>>=◌ attempt ask_text lift
fuse_version_panics program line rest text k h l s t e =
    rw (t, e, split_at line b'\n' rest l, split-Lacks line b' ' s) refl
