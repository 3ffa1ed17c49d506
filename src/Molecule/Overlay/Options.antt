-- ===== src/Molecule/Overlay/Options.antt =====
-- The options of the overlay, and what `GetOverlayDirs` reads back from them.
use atomfs.Base.{
  ◌≡◌, ◌∙◌, sym, ap, refl, false, List, [], ◌∷◌, ◌++◌, append_assoc, All, All-append, ◌⊎◌, inl, inr,
  Bool-cases,
}
use atomfs.Text.{Bytes, bytes, split, join, text_eq}
use atomfs.Text.Laws.{Lacks, sep_test, split_at}
use atomfs.System.{ok, Kernel, History}
use atomfs.System.Trace.{Ends, Ends-pure, Ends-after}
use atomfs.Molecule.{MountOciOpts}
use atomfs.Mountinfo.{Mount, get_overlay_dirs}
use atomfs.Mountinfo.Find.{get_overlay_dirs-lowerdir_opt, lowerdir_opt, NoLowerdir}
use atomfs.Molecule.Overlay.{read_only_args, writeable_args, overlay_args, overlay_mount_options}

-- The bytes that separate options and directories.
abbrev pub IsPlain : Bytes → Type 0
IsPlain p = Lacks (sep_test b',') p × Lacks (sep_test b':') p

-- The options of the overlay of `Mount` at `dest` over the directories.
abbrev pub HasLower : Bytes → Bytes → Bytes → Type 0
HasLower dest lower args =
    (args ≡ read_only_args lower)
    ⊎ ((upperdir : Bytes) × (workdir : Bytes) × (args ≡ writeable_args dest lower upperdir workdir))

pub overlay_args-HasLower :
    (c : MountOciOpts) (metadir dest lower : Bytes) (k : Kernel) (h : History)
    → Ends (overlay_args c metadir dest lower) k h (λ args _. HasLower dest lower args)
unfolding overlay_args
overlay_args-HasLower c metadir dest lower k h = elim (Bool-cases c.add_writeable_overlay) [
  | inl e ↦ simp e (
      Ends-after _ _
        λ _ h₁. Ends-after _ _ λ _ h₂. Ends-after _ _ λ _ h₃. Ends-pure _ (inr (_, _, refl)))
  | inr e ↦ simp e (Ends-pure _ (inl refl))
]

no_colons : (ps : List Bytes) → All IsPlain ps → All (Lacks (sep_test b':')) ps
no_colons [] h = tt
no_colons (p ∷ ps) ((_, c), hs) = (c, no_colons ps hs)

join-no_comma : (ps : List Bytes) → All IsPlain ps → Lacks (sep_test b',') (join (bytes ":") ps)
unfolding join
join-no_comma [] h = tt
join-no_comma (p ∷ []) ((c, _), _) = c
join-no_comma (p ∷ q ∷ ps) ((c, _), hs) =
    All-append (λ b. sep_test b',' b ≡ false) p (b':' ∷ join (bytes ":") (q ∷ ps)) c
      (refl, join-no_comma (q ∷ ps) hs)

first_option :
    (dir : Bytes) (dirs : List Bytes) (rest : Bytes)
    → All IsPlain (dir ∷ dirs)
    → split b',' (lowerdir_opt (dir ∷ dirs) ++ (b',' ∷ rest))
      ≡ lowerdir_opt (dir ∷ dirs) ∷ split b',' rest
first_option dir dirs rest h = split_at (lowerdir_opt (dir ∷ dirs)) b',' rest (
    All-append (λ b. sep_test b',' b ≡ false) (bytes "lowerdir=") (join (bytes ":") (dir ∷ dirs))
      (refl, (refl, (refl, (refl, (refl, (refl, (refl, (refl, (refl, tt)))))))))
      (join-no_comma (dir ∷ dirs) h))

writeable_args-first :
    (dest upperdir workdir dir : Bytes) (dirs : List Bytes)
    → writeable_args dest (join (bytes ":") (dir ∷ dirs)) upperdir workdir
      ≡ lowerdir_opt (dest ∷ dir ∷ dirs)
        ++ (b','
            ∷ (bytes "upperdir="
                ++ (upperdir
                    ++ (bytes ",workdir=" ++ (workdir ++ (bytes "," ++ overlay_mount_options))))))
unfolding join
writeable_args-first dest upperdir workdir dir dirs =
    ap (λ u. bytes "lowerdir=" ++ u)
      (sym (append_assoc dest (b':' ∷ join (bytes ":") (dir ∷ dirs)) _))

-- The first option of the overlay names the directories, behind the target if it is writeable.
pub HasLower-first :
    (dest dir : Bytes) (dirs : List Bytes) (args : Bytes)
    → All IsPlain (dest ∷ dir ∷ dirs)
    → HasLower dest (join (bytes ":") (dir ∷ dirs)) args
    → ((rest : List Bytes) × (split b',' args ≡ lowerdir_opt (dir ∷ dirs) ∷ rest))
      ⊎ ((rest : List Bytes) × (split b',' args ≡ lowerdir_opt (dest ∷ dir ∷ dirs) ∷ rest))
HasLower-first dest dir dirs args (p, ps) (inl e) =
    inl (_, ap (split b',') e ∙ first_option dir dirs _ ps)
HasLower-first dest dir dirs args ps (inr (u, w, e)) = inr (
  _,
  ap (split b',') (e ∙ writeable_args-first dest u w dir dirs)
      ∙ first_option dest (dir ∷ dirs) _ ps,
)

-- A mount's option that names directories gives them back.
pub reads_back :
    (m : Mount) (before after : List Bytes) (dir : Bytes) (dirs : List Bytes)
    → All IsPlain (dir ∷ dirs)
    → m.fs_type ≡ bytes "overlay"
    → NoLowerdir before
    → m.opts ≡ before ++ (lowerdir_opt (dir ∷ dirs) ∷ after)
    → get_overlay_dirs m ≡ ok (dir ∷ dirs)
unfolding text_eq
reads_back m before after dir dirs h t n o =
    get_overlay_dirs-lowerdir_opt m before after dir dirs n (no_colons (dir ∷ dirs) h) o ∙ rw t refl

-- The overlay's entry in the mount table gives the lower directories of the options back, in their
-- order, where no directory holds a comma or a colon.
get_overlay_dirs-read_only_args :
    (m : Mount) (dir : Bytes) (dirs : List Bytes)
    → All IsPlain (dir ∷ dirs)
    → m.fs_type ≡ bytes "overlay"
    → m.opts ≡ split b',' (read_only_args (join (bytes ":") (dir ∷ dirs)))
    → get_overlay_dirs m ≡ ok (dir ∷ dirs)
get_overlay_dirs-read_only_args m dir dirs h t o =
    reads_back m [] _ dir dirs h t tt (o ∙ first_option dir dirs _ h)

-- The entry of a writeable overlay gives the target and then the lower directories back, in their
-- order, where none of them holds a comma or a colon.
get_overlay_dirs-writeable_args :
    (m : Mount) (dest upperdir workdir dir : Bytes) (dirs : List Bytes)
    → All IsPlain (dest ∷ dir ∷ dirs)
    → m.fs_type ≡ bytes "overlay"
    → m.opts ≡ split b',' (writeable_args dest (join (bytes ":") (dir ∷ dirs)) upperdir workdir)
    → get_overlay_dirs m ≡ ok (dest ∷ dir ∷ dirs)
get_overlay_dirs-writeable_args m dest upperdir workdir dir dirs h t o =
    reads_back m [] _ dest (dir ∷ dirs) h t tt (
      o
      ∙ (ap (split b',') (writeable_args-first dest upperdir workdir dir dirs)
          ∙ first_option dest (dir ∷ dirs) _ h))
