-- ===== src/Host/UidMap.antt =====
-- When the user mapping is that of the host, and who is taken for the host's root.
use atomfs.Base.{◌≡◌, ◌↔◌, refl, true, List, [], ◌∷◌, ◌++◌, arith, Bool-cases, inl, inr}
use atomfs.Text.{Bytes, bytes, text_eq_iff, is_empty, fields}
use atomfs.Text.Laws.{Lacks, sep_test, split-Lacks, trim_suffix-append}
use atomfs.System.{
  Kernel, History, ok, read_file, Answer, answer, failure, ◌>>=◌, pure, known, attempt, ask_text,
}
use atomfs.Host.{uidmap_is_host, am_host_root, is_whole_range}

-- The whole range of user ids, mapped to itself.
abbrev pub whole_range : List Bytes
whole_range = bytes "0" ∷ bytes "0" ∷ bytes "4294967295" ∷ []

is_whole_range_iff : (ws : List Bytes) → (is_whole_range ws ≡ true) ↔ (ws ≡ whole_range)
is_whole_range_iff (a ∷ b ∷ c ∷ []) = ground (
  arith,
  text_eq_iff a (bytes "0"),
  text_eq_iff b (bytes "0"),
  text_eq_iff c (bytes "4294967295"),
)
is_whole_range_iff [] = ground arith
is_whole_range_iff (a ∷ []) = ground arith
is_whole_range_iff (a ∷ b ∷ []) = ground arith
is_whole_range_iff (a ∷ b ∷ c ∷ d ∷ ws) = ground arith

fields_nil : fields [] ≡ []
unfolding fields
fields_nil = refl

no_fields : (line : Bytes) → is_empty line ≡ true → fields line ≡ []
no_fields [] e = fields_nil
no_fields (c ∷ line) e = absurd (cc e)

-- One line is the host's mapping exactly if its fields are those of the whole range.
uidmap_is_host_iff :
    (line : Bytes)
    → Lacks (sep_test b'\n') line
    → (uidmap_is_host (line ++ bytes "\n") ≡ true) ↔ (fields line ≡ whole_range)
unfolding uidmap_is_host
uidmap_is_host_iff line l =
    rw (trim_suffix-append line (bytes "\n"), split-Lacks line b'\n' l)
      (elim (Bool-cases (is_empty line)) [
        | inl e ↦ rw (e, no_fields line e) (ground arith)
        | inr e ↦ rw e (is_whole_range_iff (fields line))
      ])

abbrev pub IsHostMap : Answer Bytes → Type 0
IsHostMap (answer text) = uidmap_is_host text ≡ true
IsHostMap (failure _) = ⊥

-- The process is taken for the host's root exactly if its user is 0 and its user mapping can be
-- read and is the host's.
pub am_host_root_iff :
    (k : Kernel) (h : History)
    → ((am_host_root k h).0 ≡ ok true)
      ↔ ((k.euid ≡ 0) × IsHostMap (k.tells_text h (read_file (bytes "/proc/self/uid_map"))))
unfolding am_host_root ◌>>=◌ known attempt ask_text pure
am_host_root_iff k h = ground arith
