-- ===== src/Protocol/Tests.antt =====
-- A command in a message, and what is read back.
use os_lab.Base.{◌≡◌, refl, arith}
use os_lab.Protocol.{bytes, CommandType, Command, parse_message}
use os_lab.Protocol.Printed.{message_of}
use os_lab.Protocol.RoundTrip.{IsPrintable, parse_message-message_of}

-- The value has a blank and a colon inside.
abbrev update_command : Command
update_command = record { type = CommandType.update; key = bytes "name"; value = bytes "a : b" }

update_command-IsPrintable : IsPrintable update_command
update_command-IsPrintable = record {
  method = ground arith;
  key = record { line = omega arith; start = refl; end = refl };
  value = record { line = omega arith; start = refl; end = refl };
  none = λ w. ground arith;
}

message_of_update :
    message_of update_command ≡ bytes "Method:UPDATE\r\nKey:name\r\nValue:a : b\r\n\r\n"
message_of_update = refl

parse_message-message_of_example : parse_message (message_of update_command) ≡ update_command
parse_message-message_of_example =
    parse_message-message_of update_command update_command-IsPrintable
