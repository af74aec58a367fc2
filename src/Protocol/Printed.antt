-- ===== src/Protocol/Printed.antt =====
-- The messages of clients, as README.md describes them, and what protocol.cpp makes of them.
use mathlib.Core.List.{append_assoc}
use os_lab.Base.{
  ℕ, ◌≡◌, ◌≢◌, refl, ap, ◌∙◌, Bool, false, some, List, [], ◌∷◌, ◌++◌, Str, Str-discrete,
  if◌then◌else◌, arith,
}
use os_lab.Dict.{put}
use os_lab.Protocol.{
  bytes, CommandType, Command, get_lines, drop_cr, is_blank, trim_left, all_blank, trim_right, trim,
  Fields, split_colon, put_field, add_fields, wants_value,
}

abbrev pub method_of : CommandType → Str
method_of CommandType.add = bytes "ADD"
method_of CommandType.update = bytes "UPDATE"
method_of CommandType.get = bytes "GET"
method_of CommandType.delete = bytes "DELETE"
method_of CommandType.invalid = bytes "INVALID"

-- A line of a message, with what follows it.
abbrev pub field_line : Str → Str → Str → Str
field_line name value rest = name ++ b':' ∷ (value ++ b'\r' ∷ b'\n' ∷ rest)

-- The message for a command; GET and DELETE have no value.
abbrev pub message_of : Command → Str
message_of cmd = field_line (bytes "Method") (method_of cmd.type) (
    field_line (bytes "Key") cmd.key (
      if wants_value cmd.type
      then field_line (bytes "Value") cmd.value (bytes "\r\n")
      else bytes "\r\n"))

-- No line feed.
abbrev pub IsLine : Str → Type 0
IsLine [] = Unit
IsLine (c ∷ s) = (c ≢ b'\n') × IsLine s

abbrev pub starts_blank : Str → Bool
starts_blank [] = false
starts_blank (c ∷ s) = is_blank c

abbrev pub ends_blank : Str → Bool
ends_blank [] = false
ends_blank (c ∷ []) = is_blank c
ends_blank (c ∷ d ∷ s) = ends_blank (d ∷ s)

-- A text in one line with no blank at either end.
pub record IsPlain (s : Str) : Type 0 where
  pub line : IsLine s
  pub start : starts_blank s ≡ false
  pub end : ends_blank s ≡ false

pub get_lines-line :
    (line rest : Str) → IsLine line → get_lines (line ++ b'\n' ∷ rest) ≡ line ∷ get_lines rest
unfolding get_lines
get_lines-line [] rest h = refl
get_lines-line (c ∷ line) rest h = ground (arith, get_lines-line line rest h.1, h.0)

drop_cr-cr : (s : Str) → drop_cr (s ++ b'\r' ∷ []) ≡ s
unfolding drop_cr
drop_cr-cr [] = refl
drop_cr-cr (c ∷ []) = refl
drop_cr-cr (c ∷ d ∷ s) = ap (λ t. c ∷ t) (drop_cr-cr (d ∷ s))

trim_left-plain : (s : Str) → starts_blank s ≡ false → trim_left s ≡ s
unfolding trim_left
trim_left-plain [] h = refl
trim_left-plain (c ∷ s) h = rw (h, trim_left)

ends_all_blank : (c : ℕ) (s : Str) → ends_blank (c ∷ s) ≡ false → all_blank (c ∷ s) ≡ false
ends_all_blank c [] h = ground arith
ends_all_blank c (d ∷ s) h = ground (arith, ends_all_blank d s h)

trim_right-plain : (s : Str) → ends_blank s ≡ false → trim_right s ≡ s
unfolding trim_right
trim_right-plain [] h = refl
trim_right-plain (c ∷ []) h = rw (ends_all_blank c [] h, trim_right)
trim_right-plain (c ∷ d ∷ s) h =
    rw (ends_all_blank c (d ∷ s) h, trim_right) (ap (λ t. c ∷ t) (trim_right-plain (d ∷ s) h))

trim-plain : (s : Str) → IsPlain s → trim s ≡ s
unfolding trim
trim-plain s p = ap trim_right (trim_left-plain s p.start) ∙ trim_right-plain s p.end

-- No colon.
abbrev pub IsName : Str → Type 0
IsName [] = Unit
IsName (c ∷ s) = (c ≢ b':') × IsName s

split_colon-name :
    (name value : Str) → IsName name → split_colon (name ++ b':' ∷ value) ≡ some (name, value)
unfolding split_colon
split_colon-name [] value h = refl
split_colon-name (c ∷ name) value h = ground (arith, split_colon-name name value h.1, h.0)

pub append-IsLine : (s t : Str) → IsLine s → IsLine t → IsLine (s ++ t)
append-IsLine [] t h k = k
append-IsLine (c ∷ s) t h k = (h.0, append-IsLine s t h.1 k)

-- One line of a message, as `parse_fields` takes it.
module _ (name value : Str) (n : IsPlain name) (m : IsName name) (v : IsPlain value) where
  abbrev text_line : Str
  text_line = name ++ b':' ∷ (value ++ b'\r' ∷ [])

  pub get_lines-field_line :
      (rest : Str) → get_lines (field_line name value rest) ≡ text_line ∷ get_lines rest
  get_lines-field_line rest =
      let tail : IsLine (b':' ∷ (value ++ b'\r' ∷ [])) =
        (omega arith, append-IsLine value (b'\r' ∷ []) v.line (omega arith, tt)) in
      let same : field_line name value rest ≡ text_line ++ b'\n' ∷ rest = simp append_assoc in
      ap get_lines same
      ∙ get_lines-line text_line rest
          (append-IsLine name (b':' ∷ (value ++ b'\r' ∷ [])) n.line tail)

  drop_cr-text_line : drop_cr text_line ≡ name ++ b':' ∷ value
  drop_cr-text_line = ap drop_cr (simp append_assoc) ∙ drop_cr-cr (name ++ b':' ∷ value)

  pub add_fields-text_line :
      (lines : List Str) (fields : Fields)
      → add_fields (text_line ∷ lines) fields
        ≡ add_fields lines (put Str-discrete name value fields)
  unfolding add_fields
  add_fields-text_line lines fields =
      ap (λ l. add_fields lines (put_field (split_colon l) fields)) drop_cr-text_line
      ∙ ap (λ o. add_fields lines (put_field o fields)) (split_colon-name name value m)
      ∙ ap (λ x. add_fields lines (put Str-discrete x (trim value) fields)) (trim-plain name n)
      ∙ ap (λ x. add_fields lines (put Str-discrete name x fields)) (trim-plain value v)
