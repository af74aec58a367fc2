-- ===== src/Server/Session.antt =====
-- A whole run of the server of server.cpp: `start`, any events, and `stop`.
mod Tests
use os_lab.Base.{
  ℕ, ◌+◌, ◌≤◌, ◌≡◌, ◌≢◌, refl, sym, ap, subst, ◌∙◌, Bool, true, false, ◌&&◌, Option, none, some,
  List, [], ◌∷◌, ◌++◌, map, ℕ_discrete, ite, arith, Bool-cases, Option-cases, inl, inr,
  if◌then◌else◌,
}
use os_lab.Dict.{Dict, find, Distinct}
use os_lab.Server.Connections.{
  ClientConnection, TcpServer, tcp_server, Effect, opened_socket, closed_socket,
}
use os_lab.Server.Data.{Event, handle_event, effects_before, run}
use os_lab.Server.Startup.{
  Calls, close, then_epoll, started_or_closed, start, stop, setup_server_socket, setup_epoll,
}
use os_lab.Server.Log.{
  Descriptors, set_open, open_after, AreUnused, AreOpen, open_after-append, append-AreUnused,
  append-AreOpen,
}
use os_lab.Server.Lifecycle.{in_table, is_fd, Tracks, Lawful, LawfulIf, handle_event-LawfulIf}
use os_lab.Server.Stopping.{nothing_open, Leaks, Tracks-Leaks, stop_lem}

effects_before-LawfulIf :
    (fds : Descriptors) (s : TcpServer) (log : List Effect) (o : Option (TcpServer × List Effect))
    → (AreUnused fds log → Lawful fds (s, log))
    → (Tracks (open_after fds log) s → LawfulIf (open_after fds log) o)
    → LawfulIf fds (effects_before log o)
effects_before-LawfulIf fds s log none first rest = tt
effects_before-LawfulIf fds s log (some (s', more)) first rest = λ u.
    let (u₁, u₂) = append-AreUnused fds log more u in
    let (a, t) = first u₁ in
    let (b, t') = rest t u₂ in
    (
      append-AreOpen fds log more a b,
      subst (λ f. Tracks f s') (sym (open_after-append fds log more)) t',
    )

run-LawfulIf :
    (events : List Event) (fds : Descriptors) (s : TcpServer)
    → Tracks fds s
    → LawfulIf fds (run events s)
unfolding run open_after
run-LawfulIf [] fds s t = λ u. (tt, t)
run-LawfulIf (event ∷ events) fds s t = elim (Option-cases (handle_event event s)) [
  | inl blocked ↦ rw (run, blocked) tt
  | inr (r, h) ↦
      rw (run, h)
        (effects_before-LawfulIf fds r.0 r.1 (run events r.0)
          (subst (LawfulIf fds) h (handle_event-LawfulIf event fds s t))
          (λ t'. run-LawfulIf events (open_after fds r.1) r.0 t'))
]

-- The state and the log of a start.
abbrev pub state_of : Bool × TcpServer × List Effect → TcpServer
state_of (ok, s, log) = s

abbrev pub log_of : Bool × TcpServer × List Effect → List Effect
log_of (ok, s, log) = log

abbrev pub succeeded : Bool × TcpServer × List Effect → Bool
succeeded (ok, s, log) = ok

abbrev options_set : Calls → ℕ → Bool
options_set calls port =
    calls.setsockopt && calls.get_flags && calls.set_flags && calls.bind port && calls.listen

start-Lawful :
    (calls : Calls) (port n : ℕ)
    → let r = start calls port (tcp_server n) in
      succeeded r ≡ true
      → AreUnused nothing_open (log_of r)
      → Lawful nothing_open (state_of r, log_of r)
unfolding start setup_server_socket setup_epoll tcp_server open_after find
start-Lawful calls port n = elim (Option-cases calls.socket) [
  | inl e ↦ rw (start, setup_server_socket, e) (λ ok. absurd (ground arith))
  | inr (a, e) ↦ elim (Bool-cases (options_set calls port)) [
    | inr refused ↦ rw (start, setup_server_socket, e, refused) (λ ok. absurd (ground arith))
    | inl granted ↦ elim (Option-cases calls.epoll_create) [
      | inl f ↦
          rw (start, setup_server_socket, setup_epoll, e, granted, f) (λ ok. absurd (ground arith))
      | inr (b, f) ↦
          rw (start, setup_server_socket, setup_epoll, e, granted, f)
            (λ ok u. (
              tt,
              record {
                held = λ fd. ground (arith, u.1.0);
                once = λ fd. ground arith;
                distinct = tt;
                own = λ fd client h. absurd (ground arith);
              },
            ))
    ]
  ]
]

-- From the start over any events.
pub session-Lawful :
    (n port : ℕ) (calls : Calls) (events : List Event) (s : TcpServer) (log : List Effect)
    → let r = start calls port (tcp_server n) in
      succeeded r ≡ true
      → run events (state_of r) ≡ some (s, log)
      → AreUnused nothing_open (log_of r ++ log)
      → Lawful nothing_open (s, log_of r ++ log)
session-Lawful n port calls events s log ok ran unused =
    let r = start calls port (tcp_server n) in
    let first = log_of r in
    let (u₁, u₂) = append-AreUnused nothing_open first log unused in
    let (a, t) = start-Lawful calls port n ok u₁ in
    let lawful : LawfulIf (open_after nothing_open first) (some (s, log)) =
      subst (LawfulIf (open_after nothing_open first)) ran
        (run-LawfulIf events (open_after nothing_open first) (state_of r) t) in
    let (b, t') = lawful u₂ in
    (
      append-AreOpen nothing_open first log a b,
      subst (λ f. Tracks f s) (sym (open_after-append nothing_open first log)) t',
    )

-- The server is started, handles events and is stopped. If the start succeeds, the system gives
-- only descriptors that are not open, and the run does not wait for a socket for good, then the
-- server closes and writes to open descriptors only, and in the end nothing is open: no descriptor
-- leaks, and none is closed twice, whatever `accept`, `recv` and `send` return.
pub session_closes_all :
    (n port : ℕ) (calls : Calls) (events : List Event) (s : TcpServer) (log : List Effect)
    → let r = start calls port (tcp_server n) in
      let whole = log_of r ++ log ++ (stop s).1 in
      succeeded r ≡ true
      → run events (state_of r) ≡ some (s, log)
      → AreUnused nothing_open whole
      → AreOpen nothing_open whole × ((fd : ℕ) → open_after nothing_open whole fd ≡ 0)
session_closes_all n port calls events s log ok ran unused =
    let before = log_of (start calls port (tcp_server n)) ++ log in
    let (u, u₃) = append-AreUnused nothing_open before (stop s).1 unused in
    let (a, t) = session-Lawful n port calls events s log ok ran u in
    let fds = open_after nothing_open before in
    let (b, closed) = stop_lem fds nothing_open s (Tracks-Leaks fds s t) in
    (
      append-AreOpen nothing_open before (stop s).1 a b,
      λ fd. ap (λ f. f fd) (open_after-append nothing_open before (stop s).1) ∙ closed fd,
    )

-- A start that fails once the server's socket is made closes the socket and keeps it in its field,
-- so `stop`, which the destructor calls, closes a descriptor that is not open any more.
pub failed_start_closes_twice :
    (n port fd : ℕ) (calls : Calls)
    → let r = start calls port (tcp_server n) in
      calls.socket ≡ some fd
      → succeeded r ≡ false
      → ¬ AreOpen nothing_open (log_of r ++ (stop (state_of r)).1)
unfolding start setup_server_socket setup_epoll tcp_server stop
failed_start_closes_twice n port fd calls e = elim (Bool-cases (options_set calls port)) [
  | inr refused ↦ rw (start, setup_server_socket, e, refused) (λ failed h. ground arith)
  | inl granted ↦ elim (Option-cases calls.epoll_create) [
    | inl f ↦ rw (start, setup_server_socket, setup_epoll, e, granted, f) (λ failed h. ground arith)
    | inr (b, f) ↦
        rw (start, setup_server_socket, setup_epoll, e, granted, f)
          (λ failed h. absurd (ground arith))
  ]
]
