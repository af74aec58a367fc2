-- ===== src/Protocol/Response.antt =====
-- The responses of protocol.h.
use os_lab.Base.{◌++◌, Str}
use os_lab.Protocol.{bytes}

abbrev pub ok_added : Str
ok_added = bytes "OK: Key added successfully."

abbrev pub ok_updated : Str
ok_updated = bytes "OK: Key updated successfully."

abbrev pub ok_deleted : Str
ok_deleted = bytes "OK: Key deleted successfully."

abbrev pub error_exists : Str
error_exists = bytes "ERROR: Key already exists."

abbrev pub error_not_found : Str
error_not_found = bytes "ERROR: Key not found."

abbrev pub error_no_space : Str
error_no_space = bytes "ERROR: Not enough contiguous space."

abbrev pub error_access_denied : Str
error_access_denied = bytes "ERROR: Access denied to key."

abbrev pub error_invalid_command : Str
error_invalid_command = bytes "ERROR: Invalid command format."

unfoldable pub ok_value : Str → Str
ok_value value = bytes "OK: Value=" ++ value
