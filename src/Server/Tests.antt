-- ===== src/Server/Tests.antt =====
-- A command of a client, and the theorem at it.
use os_lab.Base.{
  ℕ, Option, some, none, ℕ_discrete, Str-discrete, true, false, List, ◌≢◌, Str, ◌++◌, ◌≡◌, refl,
  arith, [], ◌∷◌,
}
use os_lab.Dict.{find, put, erase}
use os_lab.Pages
use os_lab.PagedCache.{CacheEntry, init, add_key, get_key}
use os_lab.PagedCache.Valid.{init-IsValid}
use os_lab.Protocol.{
  bytes, parse_message, parse_fields, string_to_command, parse_operands, CommandType, Command,
  format_response,
}
use os_lab.Protocol.Response.{ok_added, ok_value, error_invalid_command}
use os_lab.Texts.{strip}
use os_lab.Server.{process_command, perform, answer_add, answer_get}
use os_lab.Server.Receive.{take_message, c_string, messages, receive}
use os_lab.Server.Chunking.{handle_client_data-append}
use os_lab.Server.Connections.{
  TcpServer, tcp_server, opened_socket, client_connection, Effect, sent_bytes, took, would_block,
  failed, Sending, send_response, handle_client_disconnect, handle_new_connection, ClientConnection,
}
use os_lab.Server.Data.{
  Event, new_connection, client_data, got, again, handle_client_data, handle_event, run,
}
use os_lab.Server.Sent.{Delivered, send_response_lem}
use os_lab.Server.Events.{IsSound, id_of, run-IsSound, handle_client_data-foreign, reconnect-id}
use os_lab.Decimal.{to_string}
use os_lab.Server.Commands.{process_command-added}

abbrev add_command : Command
add_command = record { type = CommandType.add; key = 107 ∷ []; value = 104 ∷ 105 ∷ [] }

added : (process_command add_command (99 ∷ []) 1 (init 3)).0 ≡ format_response ok_added
unfolding process_command perform answer_add add_key init Pages.init Pages.allocate_pages_linked
    Pages.calculate_pages_needed find put
added = refl

process_command-added_example :
    (process_command
      (record { type = CommandType.get; key = 107 ∷ []; value = [] })
      (99 ∷ [])
      2
      (process_command add_command (99 ∷ []) 1 (init 3)).1).0
    ≡ format_response (ok_value (104 ∷ 105 ∷ []))
process_command-added_example =
    process_command-added 3 (107 ∷ []) (104 ∷ 105 ∷ []) (99 ∷ []) 1 2 (init 3)
      (init-IsValid 3 (omega arith)) added

-- A request for a key, cut in its first line.
abbrev first_chunk : Str
first_chunk = 77 ∷ 101 ∷ 116 ∷ []

abbrev second_chunk : Str
second_chunk = 104 ∷ 111 ∷ 100 ∷ 13 ∷ 10 ∷ 13 ∷ 10 ∷ 77 ∷ []

clean : c_string first_chunk ≡ first_chunk
unfolding c_string
clean = refl

-- A client whose answer cannot be sent.
abbrev one_client : TcpServer
one_client = record (tcp_server 3) { clients = (5, client_connection 5) ∷ [] }

handle_client_data-append_example :
    handle_client_data 5 (got (first_chunk ++ second_chunk) ∷ []) (failed ∷ []) 1 one_client
    ≡ handle_client_data 5 (got first_chunk ∷ got second_chunk ∷ []) (failed ∷ []) 1 one_client
handle_client_data-append_example =
    handle_client_data-append 5 1 first_chunk second_chunk [] (failed ∷ []) one_client clean

-- The message in it is answered, and what follows stays in the buffer.
answered :
    (receive (99 ∷ []) 1 (first_chunk ++ second_chunk) [] (init 3)).answers
    ≡ format_response error_invalid_command ∷ []
unfolding receive messages take_message strip c_string process_command perform parse_message
    parse_fields string_to_command parse_operands find init Pages.init format_response
answered = refl

-- A response of three bytes in two parts, with a call between that would have blocked.
send_response_lem_example :
    (s : Sending) × (send_response (took 1 ∷ would_block ∷ took 2 ∷ []) (79 ∷ 75 ∷ 10 ∷ [])
      ≡ some s)
    × Delivered (79 ∷ 75 ∷ 10 ∷ []) s
send_response_lem_example =
    send_response_lem (took 1 ∷ would_block ∷ took 2 ∷ []) (79 ∷ 75 ∷ 10 ∷ []) (omega arith)
      (omega arith)

-- Two connections come, and one of them sends a request, in two chunks, which is answered.
abbrev session : List Event
session =
    new_connection ((5, true) ∷ (6, true) ∷ [])
    ∷ client_data 5 (got first_chunk ∷ got second_chunk ∷ again ∷ []) (took 100 ∷ []) 1
    ∷ []

abbrev request_text : Str
request_text = bytes "Method: ADD\r\nKey: k\r\nValue: v\r\n\r\n"

abbrev started : TcpServer
started = record {
  server_socket = none;
  epoll_fd = none;
  cache = init 3;
  clients = (5, client_connection 5) ∷ (6, client_connection 6) ∷ [];
}

program : Unit {0}
unfolding run handle_event send_response receive messages take_message strip c_string
    process_command perform parse_message parse_fields string_to_command parse_operands init
    Pages.init format_response find answer_add put erase ℕ_discrete Str-discrete to_string
    client_connection tcp_server add_key handle_client_data handle_new_connection
    Pages.allocate_pages_linked Pages.calculate_pages_needed
program = tt

abbrev after : Option (TcpServer × List Effect) → TcpServer
after none = started
after (some r) = r.0

abbrev effects_of : Option (TcpServer × List Effect) → List Effect
effects_of none = []
effects_of (some r) = r.1

run-IsSound_example : IsSound 3 (after (run session (tcp_server 3)))
unfolding program
run-IsSound_example =
    run-IsSound 3 session (after (run session (tcp_server 3)))
      (effects_of (run session (tcp_server 3))) (omega arith) refl

started-IsSound : IsSound 3 started
unfolding program
started-IsSound =
    run-IsSound 3 (new_connection ((5, true) ∷ (6, true) ∷ []) ∷ []) started
      (opened_socket 5 ∷ opened_socket 6 ∷ []) (omega arith) refl

client_5 : find ℕ_discrete 5 started.clients ≡ some (client_connection 5)
unfolding program
client_5 = refl

reconnect-id_example :
    let s₁ = (handle_client_disconnect 5 started).0 in
    let s₂ = (handle_new_connection ((5, true) ∷ []) s₁).0 in
    (find ℕ_discrete 5 s₁.clients ≡ none)
    × ((client' : ClientConnection) × (find ℕ_discrete 5 s₂.clients ≡ some client')
        × ((cmd : Command) (now : ℕ)
            → process_command cmd client'.client_id now s₂.cache
              ≡ process_command cmd (client_connection 5).client_id now started.cache))
reconnect-id_example = reconnect-id 3 5 (client_connection 5) started started-IsSound client_5

-- A server on which connection 6 has added a key.
abbrev two_clients : List Event
two_clients =
    new_connection ((5, true) ∷ (6, true) ∷ [])
    ∷ client_data 6 (got request_text ∷ []) (took 100 ∷ []) 2
    ∷ []

abbrev held : TcpServer
held = record {
  server_socket = none;
  epoll_fd = none;
  cache = record {
    pages = record {
      page_bitmap = true ∷ false ∷ false ∷ [];
      free_list = record { start_page = 1; num_pages = 2 } ∷ [];
    };
    cache_map =
        (
          bytes "k",
          record {
            key = bytes "k";
            value = bytes "v";
            memory_blocks = 0 ∷ [];
            total_pages = 1;
            last_access = 2;
            client_id = bytes "client_6";
          },
        )
        ∷ [];
    lru_order = bytes "k" ∷ [];
  };
  clients = (5, client_connection 5) ∷ (6, client_connection 6) ∷ [];
}

held_run :
    run two_clients (tcp_server 3)
    ≡ some (
      held,
      opened_socket 5
          ∷ opened_socket 6
          ∷ sent_bytes 6 (bytes "OK: Key added successfully.\r\n")
          ∷ [],
    )
unfolding program
held_run = refl

held-IsSound : IsSound 3 held
held-IsSound =
    run-IsSound 3 two_clients held
      (opened_socket 5
        ∷ opened_socket 6
        ∷ sent_bytes 6 (bytes "OK: Key added successfully.\r\n")
        ∷ [])
      (omega arith) held_run

abbrev its_entry : CacheEntry
its_entry = record {
  key = bytes "k";
  value = bytes "v";
  memory_blocks = 0 ∷ [];
  total_pages = 1;
  last_access = 2;
  client_id = id_of 6;
}

abbrev get_text : Str
get_text = bytes "Method: GET\r\nKey: k\r\n\r\n"

refused :
    handle_client_data 5 (got get_text ∷ []) (took 100 ∷ []) 3 held
    ≡ some (held, sent_bytes 5 (bytes "ERROR: Access denied to key.\r\n") ∷ [])
unfolding program answer_get get_key
refused = refl

holds : find Str-discrete (bytes "k") held.cache.cache_map ≡ some its_entry
unfolding program
holds = refl

five_ne_six : ◌≢◌ {A = ℕ} 5 6
five_ne_six e = omega arith

its_owner : its_entry.client_id ≡ id_of 6
its_owner = refl

handle_client_data-foreign_example :
    find Str-discrete (bytes "k") held.cache.cache_map ≡ some its_entry
handle_client_data-foreign_example =
    handle_client_data-foreign 3 5 6 (got get_text ∷ []) (took 100 ∷ []) 3 held held
      (sent_bytes 5 (bytes "ERROR: Access denied to key.\r\n") ∷ []) (bytes "k") its_entry
      held-IsSound five_ne_six refused holds its_owner
