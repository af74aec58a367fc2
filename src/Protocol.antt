-- ===== src/Protocol.antt =====
-- protocol.h and protocol.cpp: a request is lines of `name:value`, a response one line. `toupper`
-- is that of the C locale.
pub mod Response
pub mod Printed
pub mod RoundTrip
mod Tests
use Prim.Native.Char.{code}
use Prim.Native.String.{String}
use os_lab.Base.{
  ℕ, zero, suc, ◌+◌, ◌-◌, Bool, true, false, ◌&&◌, ◌||◌, Option, none, some, List, [], ◌∷◌, ◌++◌,
  map, Str, Str-discrete, ite, ltb, leb, ◌==◌, if◌then◌else◌,
}
use os_lab.Dict.{Dict, find, put}

-- The bytes of a text literal, which are ASCII here.
abbrev pub bytes : String → Str
bytes String.[] = []
bytes (String.◌∷◌ c s) = code c ∷ bytes s

pub data CommandType : Type 0 where
  add update get delete invalid : CommandType

pub record Command : Type 0 where
  pub type : CommandType
  pub key : Str
  pub value : Str

-- `Command()`
abbrev pub empty_command : Command
empty_command = record { type = invalid; key = []; value = [] }

unfoldable pub to_upper : ℕ → ℕ
to_upper c = if leb b'a' c && leb c b'z' then c - 32 else c

unfoldable pub string_to_command : Str → CommandType
unfolding to_upper
string_to_command cmd_str =
    let cmd_upper = map to_upper cmd_str in
    ite (Str-discrete cmd_upper (bytes "ADD")) add (
      ite (Str-discrete cmd_upper (bytes "UPDATE")) update (
        ite (Str-discrete cmd_upper (bytes "GET")) get
          (ite (Str-discrete cmd_upper (bytes "DELETE")) delete invalid)))

-- Puts a byte in front of the first line.
abbrev pub onto_first : ℕ → List Str → List Str
onto_first c [] = (c ∷ []) ∷ []
onto_first c (line ∷ lines) = (c ∷ line) ∷ lines

-- The lines that `std::getline` returns until it fails: an end of line ends a line, and what is
-- behind the last one is a line only if it is not empty.
unfoldable pub get_lines : Str → List Str
get_lines [] = []
get_lines (c ∷ s) = let rest = get_lines s in if c == b'\n' then [] ∷ rest else onto_first c rest

-- `if (!line.empty() && line.back() == '\r') line.pop_back();`
unfoldable pub drop_cr : Str → Str
drop_cr [] = []
drop_cr (c ∷ []) = if c == b'\r' then [] else c ∷ []
drop_cr (c ∷ d ∷ s) = c ∷ drop_cr (d ∷ s)

abbrev pub is_blank : ℕ → Bool
is_blank c = c == b' ' || c == b'\t'

-- `s.erase(0, s.find_first_not_of(" \t"))`: with no other byte the whole text goes.
unfoldable pub trim_left : Str → Str
trim_left [] = []
trim_left (c ∷ s) = if is_blank c then trim_left s else c ∷ s

abbrev pub all_blank : Str → Bool
all_blank [] = true
all_blank (c ∷ s) = is_blank c && all_blank s

-- `s.erase(s.find_last_not_of(" \t") + 1)`: `npos + 1` is 0, so the whole text goes then too.
unfoldable pub trim_right : Str → Str
trim_right [] = []
trim_right (c ∷ s) = if all_blank (c ∷ s) then [] else c ∷ trim_right s

unfoldable pub trim : Str → Str
unfolding trim_left trim_right
trim s = trim_right (trim_left s)

abbrev pub onto_name : ℕ → Option (Str × Str) → Option (Str × Str)
onto_name c none = none
onto_name c (some (name, value)) = some (c ∷ name, value)

-- What is before and behind the first colon.
unfoldable pub split_colon : Str → Option (Str × Str)
split_colon [] = none
split_colon (c ∷ s) =
    let rest = split_colon s in if c == b':' then some ([], s) else onto_name c rest

abbrev pub Fields : Type 0
Fields = Dict Str Str

-- A line without a colon, the empty one too, is passed over.
abbrev pub put_field : Option (Str × Str) → Fields → Fields
put_field none fields = fields
put_field (some (name, value)) fields = put Str-discrete (trim name) (trim value) fields

-- The loop of `parse_fields`.
unfoldable pub add_fields : List Str → Fields → Fields
unfolding drop_cr split_colon trim
add_fields [] fields = fields
add_fields (line ∷ lines) fields = add_fields lines (put_field (split_colon (drop_cr line)) fields)

unfoldable pub parse_fields : Str → Fields
unfolding get_lines add_fields
parse_fields message = add_fields (get_lines message) []

-- `cmd.type == CommandType::ADD || cmd.type == CommandType::UPDATE`
abbrev pub wants_value : CommandType → Bool
wants_value add = true
wants_value update = true
wants_value _ = false

-- The part of `parse_message` behind a valid method; a command that becomes invalid keeps its key.
unfoldable pub parse_operands : CommandType → Fields → Command
parse_operands type fields = elim (find Str-discrete (bytes "Key") fields) [
  | none ↦ empty_command
  | some key ↦ elim (find Str-discrete (bytes "Value") fields) [
    | some value ↦ record { type = type; key = key; value = value }
    | none ↦
        if wants_value type
        then record { type = invalid; key = key; value = [] }
        else record { type = type; key = key; value = [] }
  ]
]

abbrev pub parse_typed : CommandType → Fields → Command
parse_typed invalid fields = empty_command
parse_typed add fields = parse_operands add fields
parse_typed update fields = parse_operands update fields
parse_typed get fields = parse_operands get fields
parse_typed delete fields = parse_operands delete fields

unfoldable pub parse_message : Str → Command
unfolding parse_fields string_to_command parse_operands
parse_message message =
    let fields = parse_fields message in
    elim (find Str-discrete (bytes "Method") fields) [
      | none ↦ empty_command
      | some method ↦ parse_typed (string_to_command method) fields
    ]

unfoldable pub format_response : Str → Str
format_response response = response ++ bytes "\r\n"
