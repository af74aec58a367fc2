-- ===== src/Server/Data.antt =====
-- `handle_client_data` of server.cpp as a whole, with what `recv` and `send` may do, and the events
-- of `run`. The time stands still while a client's bytes are handled.
use os_lab.Base.{
  ℕ, zero, suc, Bool, true, false, some, none, Option, List, [], ◌∷◌, ◌++◌, Str, ℕ_discrete, length,
}
use os_lab.Dict.{find, put}
use os_lab.PagedCache.{PagedCache}
use os_lab.Protocol.{parse_message}
use os_lab.Server.{process_command}
use os_lab.Server.Connections.{
  ClientConnection, TcpServer, Effect, sent_bytes, Sent, send_response, handle_new_connection,
  handle_client_disconnect,
}
use os_lab.Server.Receive.{take_message, c_string}

-- What a call of `recv` did: it gave bytes, it met the end of the stream, there are none yet, or it
-- failed.
pub data Received : Type 0 where
  got : Str → Received
  ended : Received
  again : Received
  broken : Received

-- Where the loops over a client's bytes end: whether the connection stays open, and what they left.
pub record Reading : Type 0 where
  pub open_still : Bool
  pub buffer : Str
  pub cache : PagedCache
  pub sends : List Sent
  pub effects : List Effect

abbrev pub left : Bool → Str → PagedCache → List Sent → List Effect → Reading
left open_still buffer c sends effects = record {
  open_still = open_still;
  buffer = buffer;
  cache = c;
  sends = sends;
  effects = effects;
}

abbrev pub effects_first : List Effect → Option Reading → Option Reading
effects_first effects none = none
effects_first effects (some r) = some (record r { effects = effects ++ r.effects })

module _ (fd : ℕ) (client_id : Str) (now : ℕ) where
  -- The loop over the complete messages of the buffer, with fuel for each byte.
  unfoldable pub message_loop : ℕ → Str → PagedCache → List Sent → Option Reading
  unfolding take_message process_command parse_message send_response
  message_loop zero buffer c sends = some (left true buffer c sends [])
  message_loop (suc fuel) buffer c sends = elim (take_message buffer) [
    | none ↦ some (left true buffer c sends [])
    | some (message, rest) ↦
        let (response, c') = process_command (parse_message message) client_id now c in
        elim (send_response sends response) [
          | none ↦ none
          | some s ↦ elim s.done [
            | false ↦ some (left false rest c' s.sends (sent_bytes fd s.out ∷ []))
            | true ↦ effects_first (sent_bytes fd s.out ∷ []) (message_loop fuel rest c' s.sends)
          ]
        ]
  ]

  -- The loop over the calls of `recv`.
  unfoldable pub receive_loop : List Received → Str → PagedCache → List Sent → Option Reading
  unfolding message_loop c_string
  receive_loop [] buffer c sends = some (left true buffer c sends [])
  receive_loop (r ∷ received) buffer c sends = elim r [
    | again ↦ some (left true buffer c sends [])
    | ended ↦ some (left false buffer c sends [])
    | broken ↦ some (left false buffer c sends [])
    | got chunk ↦
        let all = buffer ++ c_string chunk in
        elim (message_loop (length all) all c sends) [
          | none ↦ none
          | some l ↦ elim l.open_still [
            | false ↦ some l
            | true ↦ effects_first l.effects (receive_loop received l.buffer l.cache l.sends)
          ]
        ]
  ]

-- The table after the loops, and the disconnect where they end in one.
unfoldable pub leave : ℕ → ClientConnection → TcpServer → Reading → TcpServer × List Effect
unfolding handle_client_disconnect
leave fd client s r =
    let s' : TcpServer = record s {
      cache = r.cache;
      clients = put ℕ_discrete fd (record client { buffer = r.buffer }) s.clients;
    } in
    elim r.open_still [
      | true ↦ (s', r.effects)
      | false ↦ let (s'', effects) = handle_client_disconnect fd s' in (s'', r.effects ++ effects)
    ]

abbrev pub then_leave :
    ℕ → ClientConnection → TcpServer → Option Reading → Option (TcpServer × List Effect)
then_leave fd client s none = none
then_leave fd client s (some r) = some (leave fd client s r)

-- `none` is a run that waits for a socket for good.
unfoldable pub handle_client_data :
    ℕ → List Received → List Sent → ℕ → TcpServer → Option (TcpServer × List Effect)
unfolding receive_loop leave
handle_client_data fd received sends now s = elim (find ℕ_discrete fd s.clients) [
  | none ↦ some (s, [])
  | some client ↦
      then_leave fd client s
        (receive_loop fd client.client_id now received client.buffer s.cache sends)
]

-- What `epoll_wait` reports, with what the calls on the sockets then do.
pub data Event : Type 0 where
  new_connection : List (ℕ × Bool) → Event
  client_data : ℕ → List Received → List Sent → ℕ → Event

unfoldable pub handle_event : Event → TcpServer → Option (TcpServer × List Effect)
unfolding handle_new_connection handle_client_data
handle_event (new_connection accepted) s = some (handle_new_connection accepted s)
handle_event (client_data fd received sends now) s = handle_client_data fd received sends now s

abbrev pub effects_before :
    List Effect → Option (TcpServer × List Effect) → Option (TcpServer × List Effect)
effects_before effects none = none
effects_before effects (some (s, more)) = some (s, effects ++ more)

-- `run`, until `epoll_wait` fails.
unfoldable pub run : List Event → TcpServer → Option (TcpServer × List Effect)
unfolding handle_event
run [] s = some (s, [])
run (event ∷ events) s = elim (handle_event event s) [
  | none ↦ none
  | some (s', effects) ↦ effects_before effects (run events s')
]
