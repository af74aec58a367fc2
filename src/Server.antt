-- ===== src/Server.antt =====
-- `TCPServer::process_command` of server.cpp: what the server does for a command and what it
-- answers. `now` is the time of the call.
use os_lab.Base.{ℕ, Str, []}
use os_lab.PagedCache.{
  OperationResult, PagedCache, success, key_exists, key_not_found, no_space, client_mismatch,
  add_key, update_key, get_key, delete_key,
}
use os_lab.Protocol.{CommandType, Command, format_response}
use os_lab.Protocol.Response.{
  ok_added, ok_updated, ok_deleted, error_exists, error_not_found, error_no_space,
  error_access_denied, error_invalid_command, ok_value,
}
mod Commands
pub mod Connections
mod Receive
pub mod Data
mod Sent
pub mod Startup
pub mod Log
pub mod Lifecycle
pub mod Stopping
pub mod Session
mod Wire
mod Pipeline
mod Answers
mod Conversation
mod Served
mod Events
mod Chunks
mod Readings
mod Joined
mod Chunking
mod Tests

-- The inner `switch` of each operation.
unfoldable pub answer_add : OperationResult → Str
unfolding format_response
answer_add success = format_response ok_added
answer_add key_exists = format_response error_exists
answer_add no_space = format_response error_no_space
answer_add _ = format_response error_invalid_command

unfoldable pub answer_update : OperationResult → Str
unfolding format_response
answer_update success = format_response ok_updated
answer_update key_not_found = format_response error_not_found
answer_update client_mismatch = format_response error_access_denied
answer_update no_space = format_response error_no_space
answer_update _ = format_response error_invalid_command

unfoldable pub answer_get : OperationResult → Str → Str
unfolding format_response ok_value
answer_get success value = format_response (ok_value value)
answer_get key_not_found value = format_response error_not_found
answer_get client_mismatch value = format_response error_access_denied
answer_get _ value = format_response error_invalid_command

unfoldable pub answer_delete : OperationResult → Str
unfolding format_response
answer_delete success = format_response ok_deleted
answer_delete key_not_found = format_response error_not_found
answer_delete client_mismatch = format_response error_access_denied
answer_delete _ = format_response error_invalid_command

-- An operation on a key and a value.
unfoldable pub perform : CommandType → Str → Str → Str → ℕ → PagedCache → Str × PagedCache
unfolding answer_add answer_update answer_get answer_delete add_key update_key get_key delete_key
perform CommandType.add key value client_id now cache =
    let (result, cache') = add_key key value client_id now cache in (answer_add result, cache')
perform CommandType.update key value client_id now cache =
    let (result, cache') = update_key key value client_id now cache in
    (answer_update result, cache')
perform CommandType.get key value client_id now cache =
    let (result, found, cache') = get_key key [] client_id now cache in
    (answer_get result found, cache')
perform CommandType.delete key value client_id now cache =
    let (result, cache') = delete_key key client_id cache in (answer_delete result, cache')
perform CommandType.invalid key value client_id now cache =
    (format_response error_invalid_command, cache)

unfoldable pub process_command : Command → Str → ℕ → PagedCache → Str × PagedCache
unfolding perform
process_command cmd client_id now cache = perform cmd.type cmd.key cmd.value client_id now cache
