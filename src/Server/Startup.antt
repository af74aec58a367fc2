-- ===== src/Server/Startup.antt =====
-- How the server of server.cpp starts and stops: the sockets that `start` makes and `stop` closes.
use os_lab.Base.{
  ℕ, Bool, true, false, ◌&&◌, Option, none, some, List, [], ◌∷◌, ◌++◌, map, if◌then◌else◌,
}
use os_lab.Server.Connections.{TcpServer, Effect, opened_socket, closed_socket}

-- What the calls of the system return, where they are made; `bind` depends on the port. What
-- `epoll_ctl` returns for the server's socket changes nothing but a message.
pub record Calls : Type 0 where
  pub socket : Option ℕ
  pub setsockopt : Bool
  pub get_flags : Bool
  pub set_flags : Bool
  pub bind : ℕ → Bool
  pub listen : Bool
  pub epoll_create : Option ℕ

-- `close` of a descriptor, which does nothing to -1.
abbrev pub close : Option ℕ → List Effect
close none = []
close (some fd) = closed_socket fd ∷ []

-- A failed call behind `socket` closes it, and leaves the field as it is.
unfoldable pub setup_server_socket : Calls → ℕ → TcpServer → Bool × TcpServer × List Effect
setup_server_socket calls port s = elim calls.socket [
  | none ↦ (false, record s { server_socket = none }, [])
  | some fd ↦
      let s' : TcpServer = record s { server_socket = some fd } in
      if calls.setsockopt && calls.get_flags && calls.set_flags && calls.bind port && calls.listen
      then (true, s', opened_socket fd ∷ [])
      else (false, s', opened_socket fd ∷ closed_socket fd ∷ [])
]

unfoldable pub setup_epoll : Calls → TcpServer → TcpServer × List Effect
setup_epoll calls s = elim calls.epoll_create [
  | none ↦ (record s { epoll_fd = none }, [])
  | some fd ↦ (record s { epoll_fd = some fd }, opened_socket fd ∷ [])
]

-- What follows `setup_epoll`.
abbrev pub started_or_closed :
    List Effect → TcpServer × List Effect → Bool × TcpServer × List Effect
started_or_closed before (s, effects) = elim s.epoll_fd [
  | none ↦ (false, s, before ++ effects ++ close s.server_socket)
  | some _ ↦ (true, s, before ++ effects)
]

abbrev pub then_epoll : Calls → Bool × TcpServer × List Effect → Bool × TcpServer × List Effect
then_epoll calls (false, s, effects) = (false, s, effects)
then_epoll calls (true, s, effects) = started_or_closed effects (setup_epoll calls s)

unfoldable pub start : Calls → ℕ → TcpServer → Bool × TcpServer × List Effect
unfolding setup_server_socket setup_epoll
start calls port s = then_epoll calls (setup_server_socket calls port s)

-- `stop`, which the destructor calls too: the connections in the order of the table, and the two
-- sockets of the server.
unfoldable pub stop : TcpServer → TcpServer × List Effect
stop s = (
  record s { clients = []; server_socket = none; epoll_fd = none },
  map (λ entry. closed_socket (entry.1).socket_fd) s.clients
      ++ close s.server_socket
      ++ close s.epoll_fd,
)
