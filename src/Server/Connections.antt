-- ===== src/Server/Connections.antt =====
-- The clients of server.h and server.cpp: the table of connections, how a connection comes and
-- goes, and how an answer is sent.
use os_lab.Base.{
  ℕ, ◌+◌, Bool, true, false, some, none, Option, List, [], ◌∷◌, ◌++◌, Str, ℕ_discrete, ltb, length,
  if◌then◌else◌,
}
use os_lab.Decimal.{to_string}
use os_lab.Dict.{Dict, put, erase}
use os_lab.Texts.{take, drop}
use os_lab.PagedCache.{PagedCache, init}
use os_lab.Protocol.{bytes}

pub record ClientConnection : Type 0 where
  pub socket_fd : ℕ
  pub client_id : Str
  pub buffer : Str
  pub authenticated : Bool

-- The constructor of `ClientConnection`. The descriptor is that of an open socket, so not negative.
unfoldable pub client_connection : ℕ → ClientConnection
unfolding to_string
client_connection fd = record {
  socket_fd = fd;
  client_id = bytes "client_" ++ to_string fd;
  buffer = [];
  authenticated = false;
}

-- `TCPServer`, where `none` is the descriptor -1.
pub record TcpServer : Type 0 where
  pub server_socket : Option ℕ
  pub epoll_fd : Option ℕ
  pub cache : PagedCache
  pub clients : Dict ℕ ClientConnection

-- The constructor, for any number of pages.
unfoldable pub tcp_server : ℕ → TcpServer
unfolding init
tcp_server pages = record {
  server_socket = none;
  epoll_fd = none;
  cache = init pages;
  clients = [];
}

-- What became of descriptors: the system gave one, it was closed, and bytes went out on one.
pub data Effect : Type 0 where
  opened_socket : ℕ → Effect
  sent_bytes : ℕ → Str → Effect
  closed_socket : ℕ → Effect

-- A descriptor that `accept` returned, and whether `epoll_ctl` could add it. The loop ends when
-- `accept` fails, for whatever reason.
unfoldable pub handle_new_connection : List (ℕ × Bool) → TcpServer → TcpServer × List Effect
unfolding client_connection
handle_new_connection [] s = (s, [])
handle_new_connection ((fd, true) ∷ accepted) s =
    let (s', effects) =
      handle_new_connection accepted
        (record s { clients = put ℕ_discrete fd (client_connection fd) s.clients }) in
    (s', opened_socket fd ∷ effects)
handle_new_connection ((fd, false) ∷ accepted) s =
    let (s', effects) = handle_new_connection accepted s in
    (s', opened_socket fd ∷ closed_socket fd ∷ effects)

unfoldable pub handle_client_disconnect : ℕ → TcpServer → TcpServer × List Effect
handle_client_disconnect fd s =
    (record s { clients = erase ℕ_discrete fd s.clients }, closed_socket fd ∷ [])

-- What a call of `send` did: it took so many bytes, it would have blocked, or it failed.
pub data Sent : Type 0 where
  took : ℕ → Sent
  would_block : Sent
  failed : Sent

-- The result of `send_response`, the bytes that went out, and the results of `send` that are left.
pub record Sending : Type 0 where
  pub done : Bool
  pub out : Str
  pub sends : List Sent

-- `none` means that the socket blocks for as long as the results of `send` are known.
unfoldable pub send_loop : List Sent → Str → ℕ → Str → Option Sending
unfolding take drop
send_loop [] response total_sent out =
    if ltb total_sent (length response)
    then none
    else some (record { done = true; out = out; sends = [] })
send_loop (r ∷ sends) response total_sent out = elim (ltb total_sent (length response)) [
  | false ↦ some (record { done = true; out = out; sends = r ∷ sends })
  | true ↦ elim r [
    | would_block ↦ send_loop sends response total_sent out
    | failed ↦ some (record { done = false; out = out; sends = sends })
    | took n ↦ send_loop sends response (total_sent + n) (out ++ take n (drop total_sent response))
  ]
]

unfoldable pub send_response : List Sent → Str → Option Sending
unfolding send_loop
send_response sends response = send_loop sends response 0 []
