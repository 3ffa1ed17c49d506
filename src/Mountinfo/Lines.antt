-- ===== src/Mountinfo/Lines.antt =====
-- Lines of the mount table: writing one and reading it back.
use atomfs.Base.{◌≡◌, ◌≢◌, refl, ap, ◌∙◌, true, false, List, [], ◌∷◌, ◌++◌, All}
use atomfs.Text.{
  Bytes, bytes, text_eq, is_empty, is_space, non_empty, split_by, split, fields, join,
}
use atomfs.Text.Laws.{Lacks, sep_test, split_by_at, split_by-Lacks, split-join}
use atomfs.System.{ok}
use atomfs.Mountinfo.{Mount, scan_fields, after_dash, parse_fields, parse_line}

-- A field of a line: not empty, and with no white space.
pub record IsField (w : Bytes) : Type 0 where
  pub solid : Lacks is_space w
  pub not_empty : is_empty w ≡ false

non_empty-cons :
    (w : Bytes) (ws : List Bytes) → is_empty w ≡ false → non_empty (w ∷ ws) ≡ w ∷ non_empty ws
unfolding non_empty
non_empty-cons [] ws h = cc
non_empty-cons (c ∷ w) ws h = refl

space_is_space : is_space b' ' ≡ true
unfolding is_space
space_is_space = refl

cut_joined :
    (w : Bytes) (ws : List Bytes)
    → All IsField (w ∷ ws)
    → non_empty (split_by is_space (join (bytes " ") (w ∷ ws))) ≡ w ∷ ws
unfolding join
cut_joined w [] (h, _) =
    rw (split_by-Lacks is_space w h.solid, non_empty-cons w [] h.not_empty)
      (unfold non_empty in refl)
cut_joined w (v ∷ ws) (h, hs) =
    rw (split_by_at is_space w b' ' (join (bytes " ") (v ∷ ws)) h.solid space_is_space)
      (rw (non_empty-cons w _ h.not_empty) (ap (λ t. w ∷ t) (cut_joined v ws hs)))

-- Fields that stand behind single spaces are read back.
pub fields-join :
    (w : Bytes) (ws : List Bytes)
    → All IsField (w ∷ ws)
    → fields (join (bytes " ") (w ∷ ws)) ≡ w ∷ ws
unfolding fields
fields-join w ws h = cut_joined w ws h

-- No field is a lone dash.
abbrev pub NoDash : List Bytes → Type 0
NoDash ws = All (λ w. text_eq w (bytes "-") ≡ false) ws

scan_fields-append :
    (m : Mount) (ws rest : List Bytes) → NoDash ws → scan_fields m (ws ++ rest) ≡ scan_fields m rest
unfolding scan_fields
scan_fields-append m [] rest h = refl
scan_fields-append m (w ∷ ws) rest (h, hs) = rw (h, scan_fields) (scan_fields-append m ws rest hs)

scan_fields_end : (m : Mount) (ws : List Bytes) → NoDash ws → scan_fields m ws ≡ ok m
unfolding scan_fields
scan_fields_end m [] h = refl
scan_fields_end m (w ∷ ws) (h, hs) = rw (h, scan_fields) (scan_fields_end m ws hs)

dash_is_dash : text_eq (bytes "-") (bytes "-") ≡ true
unfolding text_eq
dash_is_dash = refl

scan_fields_dash :
    (m : Mount) (fs src os : Bytes)
    → NoDash (fs ∷ src ∷ os ∷ [])
    → scan_fields m (bytes "-" ∷ fs ∷ src ∷ os ∷ [])
      ≡ ok (record m { fs_type = fs; source = src; opts = split b',' os })
unfolding after_dash scan_fields
scan_fields_dash m fs src os h =
    rw (dash_is_dash, scan_fields) (scan_fields_end _ (fs ∷ src ∷ os ∷ []) h)

-- The fields of a line as proc(5) gives them: five fields, the mount options and the optional
-- fields, a dash, the type, the source and the options of the super block.
abbrev pub line_fields :
    Bytes → Bytes → Bytes → Bytes → Bytes → List Bytes → Bytes → Bytes → Bytes → List Bytes
line_fields id parent device root target more fs src os =
    id ∷ parent ∷ device ∷ root ∷ target ∷ (more ++ (bytes "-" ∷ fs ∷ src ∷ os ∷ []))

-- A line in the kernel's format is read as its target, type, source and options, if no field but
-- the separator is a lone dash.
pub parse_line-join :
    (id parent device root target : Bytes) (more : List Bytes) (fs src : Bytes) (opts : List Bytes)
    → let os = join (bytes ",") opts in
      All IsField (line_fields id parent device root target more fs src os)
      → NoDash more
      → NoDash (fs ∷ src ∷ os ∷ [])
      → opts ≢ []
      → All (Lacks (sep_test b',')) opts
      → parse_line (join (bytes " ") (line_fields id parent device root target more fs src os))
        ≡ ok (record { source = src; target = target; fs_type = fs; opts = opts })
unfolding parse_line parse_fields
parse_line-join id parent device root target more fs src [] h d d' n c = absurd (n refl)
parse_line-join id parent device root target more fs src (o ∷ opts) h d d' n c =
    rw (fields-join _ _ h, scan_fields-append _ more _ d)
      (scan_fields_dash _ fs src (join (bytes ",") (o ∷ opts)) d' ∙ rw (split-join b',' o opts c))
