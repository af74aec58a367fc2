-- ===== src/Protocol/RoundTrip.antt =====
-- `parse_message` of protocol.cpp reads back the messages of clients.
use os_lab.Base.{
  ◌≡◌, ◌≢◌, refl, sym, ap, ◌∙◌, true, false, none, some, [], ◌∷◌, Str, Str-discrete, arith,
}
use os_lab.Dict.{find, put}
use os_lab.Protocol.{
  bytes, CommandType, Command, string_to_command, get_lines, Fields, add_fields, parse_fields,
  wants_value, parse_operands, parse_typed, parse_message, empty_command,
}
use os_lab.Protocol.Printed.{
  method_of, field_line, message_of, IsPlain, IsName, get_lines-field_line, add_fields-text_line,
}

method_plain : IsPlain (bytes "Method") × IsName (bytes "Method")
method_plain = (record { line = omega arith; start = refl; end = refl }, omega arith)

key_plain : IsPlain (bytes "Key") × IsName (bytes "Key")
key_plain = (record { line = omega arith; start = refl; end = refl }, omega arith)

value_plain : IsPlain (bytes "Value") × IsName (bytes "Value")
value_plain = (record { line = omega arith; start = refl; end = refl }, omega arith)

add_fields-field_line :
    (name value rest : Str) (fields : Fields)
    → IsPlain name × IsName name
    → IsPlain value
    → add_fields (get_lines (field_line name value rest)) fields
      ≡ add_fields (get_lines rest) (put Str-discrete name value fields)
add_fields-field_line name value rest fields n v =
    ap (λ l. add_fields l fields) (get_lines-field_line name value n.0 n.1 v rest)
    ∙ add_fields-text_line name value n.0 n.1 v (get_lines rest) fields

-- What the fields of a message are, with or without a value.
abbrev two_fields : Str → Str → Fields
two_fields method key = (bytes "Method", method) ∷ (bytes "Key", key) ∷ []

abbrev three_fields : Str → Str → Str → Fields
three_fields method key value =
    (bytes "Method", method) ∷ (bytes "Key", key) ∷ (bytes "Value", value) ∷ []

parse_fields-two :
    (method key rest : Str)
    → IsPlain method
    → IsPlain key
    → parse_fields (field_line (bytes "Method") method (field_line (bytes "Key") key rest))
      ≡ add_fields (get_lines rest) (two_fields method key)
unfolding parse_fields put Str-discrete
parse_fields-two method key rest m k =
    add_fields-field_line (bytes "Method") method (field_line (bytes "Key") key rest) []
      method_plain m
    ∙ add_fields-field_line (bytes "Key") key rest ((bytes "Method", method) ∷ []) key_plain k

parse_fields-without :
    (method key : Str)
    → IsPlain method
    → IsPlain key
    → parse_fields
        (field_line (bytes "Method") method (field_line (bytes "Key") key (bytes "\r\n")))
      ≡ two_fields method key
unfolding get_lines add_fields
parse_fields-without method key m k = parse_fields-two method key (bytes "\r\n") m k

parse_fields-with :
    (method key value : Str)
    → IsPlain method
    → IsPlain key
    → IsPlain value
    → parse_fields (
        field_line
          (bytes "Method")
          method
          (field_line (bytes "Key") key (field_line (bytes "Value") value (bytes "\r\n"))))
      ≡ three_fields method key value
unfolding get_lines add_fields put Str-discrete
parse_fields-with method key value m k v =
    parse_fields-two method key (field_line (bytes "Value") value (bytes "\r\n")) m k
    ∙ add_fields-field_line (bytes "Value") value (bytes "\r\n") (two_fields method key) value_plain
        v

-- What `parse_message` makes of the fields.
abbrev of_fields : Fields → Command
of_fields fields = elim (find Str-discrete (bytes "Method") fields) [
  | none ↦ empty_command
  | some method ↦ parse_typed (string_to_command method) fields
]

parse_message-of_fields : (message : Str) → parse_message message ≡ of_fields (parse_fields message)
unfolding parse_message
parse_message-of_fields message = refl

-- A command with a method, a key and a value of plain text, where GET and DELETE have no value.
pub record IsPrintable (cmd : Command) : Type 0 where
  pub method : cmd.type ≢ CommandType.invalid
  pub key : IsPlain cmd.key
  pub value : IsPlain cmd.value
  pub none : wants_value cmd.type ≡ false → cmd.value ≡ []

pub method_of-IsPlain : (type : CommandType) → IsPlain (method_of type)
method_of-IsPlain CommandType.add = record { line = omega arith; start = refl; end = refl }
method_of-IsPlain CommandType.update = record { line = omega arith; start = refl; end = refl }
method_of-IsPlain CommandType.get = record { line = omega arith; start = refl; end = refl }
method_of-IsPlain CommandType.delete = record { line = omega arith; start = refl; end = refl }
method_of-IsPlain CommandType.invalid = record { line = omega arith; start = refl; end = refl }

module _ (key value : Str) (k : IsPlain key) where
  abbrev command : CommandType → Command
  command type = record { type = type; key = key; value = value }

  -- For ADD and UPDATE, and for GET and DELETE.
  read_with :
      (type : CommandType)
      → IsPlain value
      → wants_value type ≡ true
      → parse_fields (message_of (command type)) ≡ three_fields (method_of type) key value
  read_with type v w =
      rw w (parse_fields-with (method_of type) key value (method_of-IsPlain type) k v)

  read_without :
      (type : CommandType)
      → wants_value type ≡ false
      → parse_fields (message_of (command type)) ≡ two_fields (method_of type) key
  read_without type w = rw w (parse_fields-without (method_of type) key (method_of-IsPlain type) k)

  read :
      (type : CommandType)
      → type ≢ CommandType.invalid
      → IsPlain value
      → (wants_value type ≡ false → value ≡ [])
      → of_fields (parse_fields (message_of (command type))) ≡ command type
  unfolding string_to_command parse_operands find Str-discrete
  read CommandType.add t v e = ap of_fields (read_with CommandType.add v refl)
  read CommandType.update t v e = ap of_fields (read_with CommandType.update v refl)
  read CommandType.get t v e =
      ap of_fields (read_without CommandType.get refl)
      ∙ ap (λ x. record { type = CommandType.get; key = key; value = x }) (sym (e refl))
  read CommandType.delete t v e =
      ap of_fields (read_without CommandType.delete refl)
      ∙ ap (λ x. record { type = CommandType.delete; key = key; value = x }) (sym (e refl))
  read CommandType.invalid t v e = absurd (t refl)

-- The message for a command that is not invalid, whose key and value are in one line with no blank
-- at either end, and whose value is empty for GET and DELETE, is parsed as this command.
pub parse_message-message_of :
    (cmd : Command) → IsPrintable cmd → parse_message (message_of cmd) ≡ cmd
parse_message-message_of cmd p =
    parse_message-of_fields (message_of cmd)
    ∙ read cmd.key cmd.value p.key cmd.type p.method p.value p.none
