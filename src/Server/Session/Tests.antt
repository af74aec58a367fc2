-- ===== src/Server/Session/Tests.antt =====
-- A small session of the server, and a start that fails.
use os_lab.Base.{ℕ, ◌≡◌, refl, true, false, some, List, [], ◌∷◌, ◌++◌, ℕ_discrete}
use os_lab.Dict.{find, put, erase}
use os_lab.PagedCache.{init}
use os_lab.Server.Connections.{
  TcpServer, tcp_server, client_connection, Effect, opened_socket, closed_socket,
  handle_new_connection, handle_client_disconnect,
}
use os_lab.Server.Data.{
  Event, new_connection, client_data, ended, handle_event, handle_client_data, receive_loop, leave,
  run,
}
use os_lab.Server.Startup.{Calls, start, stop}
use os_lab.Server.Log.{AreUnused, AreOpen, open_after}
use os_lab.Server.Stopping.{nothing_open}
use os_lab.Server.Session.{
  state_of, log_of, succeeded, session_closes_all, failed_start_closes_twice,
}

abbrev granted : Calls
granted = record {
  socket = some 3;
  setsockopt = true;
  get_flags = true;
  set_flags = true;
  bind = λ port. true;
  listen = true;
  epoll_create = some 4;
}

-- The port is taken.
abbrev taken : Calls
taken = record granted { bind = λ port. false }

-- A client comes and goes, and its descriptor is given again; another cannot be added to epoll.
abbrev events : List Event
events =
    new_connection ((5, true) ∷ (6, false) ∷ [])
    ∷ client_data 5 (ended ∷ []) [] 1
    ∷ new_connection ((5, true) ∷ [])
    ∷ []

abbrev last : TcpServer
last = record (tcp_server 1) {
  server_socket = some 3;
  epoll_fd = some 4;
  clients = (5, client_connection 5) ∷ [];
}

abbrev log : List Effect
log = opened_socket 5 ∷ opened_socket 6 ∷ closed_socket 6 ∷ closed_socket 5 ∷ opened_socket 5 ∷ []

starts : succeeded (start granted 8080 (tcp_server 1)) ≡ true
unfolding start
starts = refl

runs : run events (state_of (start granted 8080 (tcp_server 1))) ≡ some (last, log)
unfolding start tcp_server init run handle_event handle_new_connection handle_client_data
    receive_loop leave handle_client_disconnect find put erase ℕ_discrete client_connection
runs = refl

abbrev whole : List Effect
whole = log_of (start granted 8080 (tcp_server 1)) ++ log ++ (stop last).1

whole_unused : AreUnused nothing_open whole
unfolding start stop tcp_server ℕ_discrete client_connection
whole_unused = (refl, (refl, (refl, (refl, (refl, tt)))))

session_closes_all_example :
    AreOpen nothing_open whole × ((fd : ℕ) → open_after nothing_open whole fd ≡ 0)
session_closes_all_example =
    session_closes_all 1 8080 granted events last log starts runs whole_unused

refuses : succeeded (start taken 8080 (tcp_server 1)) ≡ false
unfolding start
refuses = refl

failed_start_closes_twice_example : ¬ AreOpen nothing_open (
    log_of (start taken 8080 (tcp_server 1))
    ++ (stop (state_of (start taken 8080 (tcp_server 1)))).1)
failed_start_closes_twice_example = failed_start_closes_twice 1 8080 3 taken refl refuses
