-- ===== src/Tests/Tables.antt =====
-- The mount table.
use atomfs.Base.{◌≡◌, refl, [], ◌∷◌, arith}
use atomfs.Text.{is_space, bytes, join, text_eq}
use atomfs.System.{ok}
use atomfs.Mountinfo.{parse_line}
use atomfs.Mountinfo.Lines.{IsField, line_fields, parse_line-join}

field1 : IsField (bytes "36")
unfolding is_space
field1 = record { solid = ground arith; not_empty = refl }

field2 : IsField (bytes "35")
unfolding is_space
field2 = record { solid = ground arith; not_empty = refl }

field3 : IsField (bytes "0:1")
unfolding is_space
field3 = record { solid = ground arith; not_empty = refl }

field4 : IsField (bytes "/")
unfolding is_space
field4 = record { solid = ground arith; not_empty = refl }

field5 : IsField (bytes "/mnt")
unfolding is_space
field5 = record { solid = ground arith; not_empty = refl }

field6 : IsField (bytes "rw")
unfolding is_space
field6 = record { solid = ground arith; not_empty = refl }

field7 : IsField (bytes "-")
unfolding is_space
field7 = record { solid = ground arith; not_empty = refl }

field8 : IsField (bytes "ext4")
unfolding is_space
field8 = record { solid = ground arith; not_empty = refl }

field9 : IsField (bytes "/dev/sda")
unfolding is_space
field9 = record { solid = ground arith; not_empty = refl }

field10 : IsField (bytes "rw,x")
unfolding is_space
field10 = record { solid = ground arith; not_empty = refl }

parse_line-join_example :
    parse_line (
      join (bytes " ") (
        line_fields
          (bytes "36")
          (bytes "35")
          (bytes "0:1")
          (bytes "/")
          (bytes "/mnt")
          (bytes "rw" ∷ [])
          (bytes "ext4")
          (bytes "/dev/sda")
          (join (bytes ",") (bytes "rw" ∷ bytes "x" ∷ []))))
    ≡ ok (record {
      source = bytes "/dev/sda";
      target = bytes "/mnt";
      fs_type = bytes "ext4";
      opts = bytes "rw" ∷ bytes "x" ∷ [];
    })
unfolding text_eq join is_space
parse_line-join_example =
    parse_line-join (bytes "36") (bytes "35") (bytes "0:1") (bytes "/") (bytes "/mnt")
      (bytes "rw" ∷ []) (bytes "ext4") (bytes "/dev/sda") (bytes "rw" ∷ bytes "x" ∷ [])
      (
        field1,
        (
          field2,
          (field3, (field4, (field5, (field6, (field7, (field8, (field9, (field10, tt)))))))),
        ),
      )
      (refl, tt) (refl, (refl, (refl, tt))) (λ e. absurd (cc e)) (ground arith)
