-- ===== src/Mountinfo/Find.antt =====
-- Searching the mount table, and the lower directories of an overlay.
use atomfs.Base.{
  ◌≡◌, ◌≢◌, refl, false, Option, none, some, List, [], ◌∷◌, ◌++◌, All, In, inl, inr, Bool-cases,
  if◌then◌else◌,
}
use atomfs.Text.{Bytes, bytes, text_eq, text_eq_iff, has_prefix, join}
use atomfs.Text.Laws.{Lacks, sep_test, split-join, has_prefix-append, trim_prefix-append}
use atomfs.System.{ok, err, not_overlay}
use atomfs.Mountinfo.{Mount, find_mount, find_lowerdir, get_overlay_dirs}

-- A mount that is found is in the table and has the target that was asked for; one that is not
-- found has its target nowhere in the table.
abbrev pub FindsTarget : List Mount → Bytes → Option Mount → Type 0
FindsTarget ms p (some m) = In m ms × (m.target ≡ p)
FindsTarget ms p none = All (λ m. m.target ≢ p) ms

FindsTarget-cons :
    (m : Mount) (ms : List Mount) (p : Bytes) (o : Option Mount)
    → m.target ≢ p
    → FindsTarget ms p o
    → FindsTarget (m ∷ ms) p o
FindsTarget-cons m ms p none n f = (n, f)
FindsTarget-cons m ms p (some x) n (i, e) = (inr i, e)

-- `FindMount` decides whether a target is in the table.
find_mount-FindsTarget : (ms : List Mount) (p : Bytes) → FindsTarget ms p (find_mount ms p)
unfolding find_mount
find_mount-FindsTarget [] p = tt
find_mount-FindsTarget (m ∷ ms) p = elim (Bool-cases (text_eq m.target p)) [
  | inl e ↦ rw e (inl refl, (text_eq_iff m.target p).0 e)
  | inr e ↦ rw e (
      FindsTarget-cons m ms p (find_mount ms p) (λ q. cc ((text_eq_iff m.target p).1 q))
        (find_mount-FindsTarget ms p))
]

-- The option that names the lower directories.
abbrev pub lowerdir_opt : List Bytes → Bytes
lowerdir_opt dirs = bytes "lowerdir=" ++ join (bytes ":") dirs

-- Options that do not name lower directories.
abbrev pub NoLowerdir : List Bytes → Type 0
NoLowerdir opts = All (λ o. has_prefix o (bytes "lowerdir=") ≡ false) opts

find_lowerdir_opt :
    (dir : Bytes) (dirs back : List Bytes)
    → All (Lacks (sep_test b':')) (dir ∷ dirs)
    → find_lowerdir (lowerdir_opt (dir ∷ dirs) ∷ back) ≡ ok (dir ∷ dirs)
unfolding find_lowerdir
find_lowerdir_opt dir dirs back c =
    rw (has_prefix-append (bytes "lowerdir=") (join (bytes ":") (dir ∷ dirs))) (
      rw (
        trim_prefix-append (bytes "lowerdir=") (join (bytes ":") (dir ∷ dirs)),
        split-join b':' dir dirs c,
      ))

skip :
    (front back : List Bytes)
    → NoLowerdir front
    → find_lowerdir (front ++ back) ≡ find_lowerdir back
unfolding find_lowerdir
skip [] back h = refl
skip (o ∷ front) back (h, hs) = rw h (skip front back hs)

-- The lower directories of an overlay are read back from the first option that names them, if
-- there are some and no name holds a colon. On a mount of another type the call fails.
pub get_overlay_dirs-lowerdir_opt :
    (m : Mount) (front back : List Bytes) (dir : Bytes) (dirs : List Bytes)
    → NoLowerdir front
    → All (Lacks (sep_test b':')) (dir ∷ dirs)
    → m.opts ≡ front ++ (lowerdir_opt (dir ∷ dirs) ∷ back)
    → get_overlay_dirs m
      ≡ (if text_eq m.fs_type (bytes "overlay") then ok (dir ∷ dirs) else err not_overlay)
unfolding get_overlay_dirs
get_overlay_dirs-lowerdir_opt m front back dir dirs h c e =
    rw (e, skip front (lowerdir_opt (dir ∷ dirs) ∷ back) h, find_lowerdir_opt dir dirs back c)
