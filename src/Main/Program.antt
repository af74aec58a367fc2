-- ===== src/Main/Program.antt =====
-- `main` of main.cpp: the server is started on the port of the command line, handles its events,
-- and is stopped at the end, by its destructor or by `signal_handler`. An exception ends it too.
use os_lab.Base.{
  ℕ, Bool, true, false, Option, none, some, List, [], ◌∷◌, ◌++◌, Str, map, ℕ_discrete,
}
use os_lab.Dict.{find}
use os_lab.Pages.{total_pages}
use os_lab.PagedCache.{PagedCache}
use os_lab.Server.Connections.{
  ClientConnection, TcpServer, tcp_server, Effect, opened_socket, sent_bytes, handle_new_connection,
}
use os_lab.Server.Data.{Reading, left, leave, Event, run}
use os_lab.Server.Startup.{Calls, start, stop}
use os_lab.Main.{starts, refused, unknown, port_of}

-- The program has ended with a code, and what became of descriptors; it waits for a socket for
-- good; or C++ does not say what it does.
pub data Ended : Type 0 where
  exited : ℕ → List Effect → Ended
  hangs : Ended
  unspecified : Ended

-- How `run` ends behind its events.
pub data Ending : Type 0 where
  halted : Ending  -- `epoll_wait` fails, or there is a signal while it waits
  thrown : Ending  -- an exception before the next event changes the server
  -- An exception in `handle_client_data` for a descriptor: with the buffer and the cache that it
  -- leaves, which may be any, and the bytes that went out.
  thrown_in_data : ℕ → Str → PagedCache → List Str → Ending
  -- An exception in `handle_new_connection`, when the connection of a descriptor is made, behind
  -- others that have come.
  thrown_in_accept : List (ℕ × Bool) → ℕ → Ending

abbrev pub code_of : Ending → ℕ
code_of halted = 0
code_of thrown = 1
code_of (thrown_in_data fd buffer c out) = 1
code_of (thrown_in_accept accepted fd) = 1

-- What a call of `handle_client_data` leaves that is broken off, if there is such a client.
abbrev pub break_off : ℕ → Reading → TcpServer → Option ClientConnection → TcpServer × List Effect
break_off fd r s none = (s, [])
break_off fd r s (some client) = leave fd client s r

-- The server as the last, unfinished event leaves it.
unfoldable pub after_ending : Ending → TcpServer → TcpServer × List Effect
unfolding leave handle_new_connection
after_ending halted s = (s, [])
after_ending thrown s = (s, [])
after_ending (thrown_in_data fd buffer c out) s =
    break_off fd (left true buffer c [] (map (sent_bytes fd) out)) s (find ℕ_discrete fd s.clients)
after_ending (thrown_in_accept accepted fd) s =
    let (s', effects) = handle_new_connection accepted s in (s', effects ++ opened_socket fd ∷ [])

-- The end of the scope of `server`, which comes before the handler of an exception, or `stop` and
-- `exit` in `signal_handler`.
abbrev pub after_stop : ℕ → List Effect → TcpServer → Ended
after_stop code effects s = exited code (effects ++ (stop s).1)

-- What follows the events.
abbrev pub after_run : Ending → List Effect → Option (TcpServer × List Effect) → Ended
after_run ending effects none = hangs
after_run ending effects (some (s, more)) =
    let (s', last) = after_ending ending s in
    after_stop (code_of ending) ((effects ++ more) ++ last) s'

abbrev pub after_start : List Event → Ending → Bool × TcpServer × List Effect → Ended
after_start events ending (false, s, effects) = after_stop 1 effects s
after_start events ending (true, s, effects) = after_run ending effects (run events s)

-- The `try` block, when the constructor of the server comes back or throws.
abbrev pub run_server : Bool → Calls → List Event → Ending → ℕ → Ended
run_server false calls events ending port = exited 1 []
run_server true calls events ending port =
    after_start events ending (start calls port (tcp_server total_pages))

unfoldable pub main : List Str → Bool → Calls → List Event → Ending → Ended
unfolding port_of start stop run after_ending
main args constructed calls events ending = elim (port_of args) [
  | refused ↦ exited 1 []
  | unknown ↦ unspecified
  | starts port ↦ run_server constructed calls events ending port
]
