-- ===== src/Main/Tests.antt =====
-- The ports that main.cpp takes and refuses.
use os_lab.Base.{
  ℕ, ◌≡◌, ◌⊎◌, refl, arith, [], ◌∷◌, List, some, true, ℕ_discrete, if◌then◌else◌, leb, ◌&&◌,
}
use os_lab.Decimal.{to_string}
use os_lab.Protocol.{bytes}
use os_lab.Dict.{find, put, erase}
use os_lab.PagedCache.{init}
use os_lab.Server.Connections.{
  tcp_server, client_connection, Effect, opened_socket, closed_socket, handle_new_connection,
  handle_client_disconnect,
}
use os_lab.Server.Data.{
  Event, new_connection, client_data, ended, handle_event, handle_client_data, receive_loop, leave,
  run,
}
use os_lab.Server.Startup.{Calls, start, stop}
use os_lab.Server.Log.{AreUnused, AreOpen, open_after}
use os_lab.Server.Stopping.{nothing_open}
use os_lab.Main.Program.{exited, Ending, halted, thrown_in_accept, after_ending, main}
use os_lab.Main.Endings.{leaked, main_closes_all}
use os_lab.Main.{starts, refused, unknown, port_of, port_of-to_string}

port_of_blank : port_of (bytes " +80x" ∷ []) ≡ starts 80
unfolding port_of
port_of_blank = refl

port_of_word : port_of (bytes "http" ∷ []) ≡ refused
unfolding port_of
port_of_word = refl

port_of_large : port_of (bytes "4294975376" ∷ []) ≡ unknown
unfolding port_of
port_of_large = refl

port_of-to_string_example :
    port_of (to_string 70000 ∷ [])
    ≡ (if leb 1 70000 && leb 70000 65535 then starts 70000 else refused)
port_of-to_string_example = port_of-to_string 70000 (omega arith)

-- The server gets a port, a client comes and goes, and a signal ends the program.
abbrev granted : Calls
granted = record {
  socket = some 3;
  setsockopt = true;
  get_flags = true;
  set_flags = true;
  bind = λ port. leb 1024 port;
  listen = true;
  epoll_create = some 4;
}

abbrev events : List Event
events = new_connection ((5, true) ∷ []) ∷ client_data 5 (ended ∷ []) [] 1 ∷ []

-- Without an exception all is closed.
ends :
    main (bytes "8081" ∷ []) true granted events halted
    ≡ exited 0 (
        opened_socket 3
        ∷ opened_socket 4
        ∷ opened_socket 5
        ∷ closed_socket 5
        ∷ closed_socket 3
        ∷ closed_socket 4
        ∷ [])
unfolding main port_of start stop tcp_server init run handle_event handle_new_connection
    handle_client_data receive_loop leave handle_client_disconnect find put erase ℕ_discrete
    client_connection after_ending
ends = refl

-- The second of two connections that come then cannot be made.
abbrev unmade : Ending
unmade = thrown_in_accept ((5, true) ∷ []) 6

abbrev log : List Effect
log =
    opened_socket 3
    ∷ opened_socket 4
    ∷ opened_socket 5
    ∷ closed_socket 5
    ∷ opened_socket 5
    ∷ opened_socket 6
    ∷ closed_socket 5
    ∷ closed_socket 3
    ∷ closed_socket 4
    ∷ []

throws : main (bytes "8081" ∷ []) true granted events unmade ≡ exited 1 log
unfolding main port_of start stop tcp_server init run handle_event handle_new_connection
    handle_client_data receive_loop leave handle_client_disconnect find put erase ℕ_discrete
    client_connection after_ending
throws = refl

log_unused : AreUnused nothing_open log
unfolding ℕ_discrete
log_unused = (refl, (refl, (refl, (refl, (refl, tt)))))

main_closes_all_example :
    (◌≡◌ {A = ℕ} 1 1
      × (AreOpen nothing_open log × ((fd : ℕ) → open_after nothing_open log fd ≡ leaked unmade fd)))
    ⊎ (◌≡◌ {A = ℕ} 1 1 × ((log ≡ []) ⊎ ¬ AreOpen nothing_open log))
main_closes_all_example =
    main_closes_all (bytes "8081" ∷ []) true granted events unmade 1 log throws log_unused

-- A port that only the system's administrator may use.
refuses :
    main (bytes "80" ∷ []) true granted events halted
    ≡ exited 1 (opened_socket 3 ∷ closed_socket 3 ∷ closed_socket 3 ∷ [])
unfolding main port_of start stop tcp_server
refuses = refl
