-- ===== src/Server/Lifecycle.antt =====
-- The descriptors of the server of server.cpp, from `start` over any events to `stop`: it uses only
-- what is open, and leaves nothing open.
use os_lab.Base.{
  ℕ, ◌+◌, ◌≤◌, ◌≡◌, sym, ap, subst, ◌∙◌, Bool, true, false, Option, none, some, List, [], ◌∷◌,
  ℕ_discrete, ite, arith, Bool-cases, Option-cases, inl, inr,
}
use os_lab.Dict.{
  Dict, find, put, erase, Distinct, find-put, find-erase, put-Distinct, erase-Distinct,
}
use os_lab.Server.Connections.{
  ClientConnection, client_connection, TcpServer, Effect, closed_socket, Sent,
  handle_new_connection, handle_client_disconnect,
}
use os_lab.Server.Data.{
  Received, Reading, leave, then_leave, receive_loop, handle_client_data, Event, new_connection,
  client_data, handle_event,
}
use os_lab.Server.Log.{
  Descriptors, set_open, open_after, AreUnused, AreOpen, open_after-append, append-AreOpen, AreSent,
  AreSent-open_after, AreSent-AreOpen, Sends, receive_loop-Sends,
}

abbrev pub in_table : ℕ → Dict ℕ ClientConnection → ℕ
in_table fd m = elim (find ℕ_discrete fd m) [ none ↦ 0 | some _ ↦ 1 ]

abbrev pub is_fd : ℕ → Option ℕ → ℕ
is_fd fd none = 0
is_fd fd (some k) = ite (ℕ_discrete fd k) 1 0

-- The open descriptors are those of the table and the two of the server, each once.
pub record Tracks (fds : Descriptors) (s : TcpServer) : Type 0 where
  pub held :
      (fd : ℕ) → in_table fd s.clients + is_fd fd s.server_socket + is_fd fd s.epoll_fd ≡ fds fd
  pub once : (fd : ℕ) → fds fd ≤ 1
  pub distinct : Distinct ℕ_discrete s.clients
  pub own :
      (fd : ℕ) (client : ClientConnection)
      → find ℕ_discrete fd s.clients ≡ some client
      → client.socket_fd ≡ fd

-- A call with its log, from a state with the descriptors.
abbrev pub Lawful : Descriptors → TcpServer × List Effect → Type 0
Lawful fds (s, log) = AreOpen fds log × Tracks (open_after fds log) s

Tracks-same :
    (fds fds' : Descriptors) (s : TcpServer)
    → ((fd : ℕ) → fds' fd ≡ fds fd)
    → Tracks fds s
    → Tracks fds' s
Tracks-same fds fds' s e t = record {
  held = λ fd. t.held fd ∙ sym (e fd);
  once = λ fd. omega (arith, t.once fd, e fd);
  distinct = t.distinct;
  own = t.own;
}

-- A connection that comes.
Tracks-put :
    (fds : Descriptors) (s : TcpServer) (fd : ℕ)
    → Tracks fds s
    → fds fd ≡ 0
    → Tracks
        (set_open fd 1 fds)
        (record s { clients = put ℕ_discrete fd (client_connection fd) s.clients })
unfolding client_connection
Tracks-put fds s fd t free = record {
  held = λ j. ground (arith, t.held j, find-put ℕ_discrete fd j (client_connection fd) s.clients);
  once = λ j. ground (arith, t.once j);
  distinct = put-Distinct ℕ_discrete fd (client_connection fd) s.clients t.distinct;
  own = λ j client h.
      ground (arith, t.own j client, find-put ℕ_discrete fd j (client_connection fd) s.clients);
}

-- A connection that goes.
Tracks-erase :
    (fds : Descriptors) (s : TcpServer) (fd : ℕ) (client : ClientConnection)
    → Tracks fds s
    → find ℕ_discrete fd s.clients ≡ some client
    → (fds fd ≡ 1)
      × Tracks (set_open fd 0 fds) (record s { clients = erase ℕ_discrete fd s.clients })
Tracks-erase fds s fd client t h = (
  ground (arith, t.held fd, t.once fd),
  record {
    held = λ j. ground (arith, t.held j, t.once j, find-erase ℕ_discrete fd j s.clients t.distinct);
    once = λ j. ground (arith, t.once j);
    distinct = erase-Distinct ℕ_discrete fd s.clients t.distinct;
    own = λ j c e. ground (arith, t.own j c, find-erase ℕ_discrete fd j s.clients t.distinct);
  },
)

pub handle_new_connection-Lawful :
    (accepted : List (ℕ × Bool)) (fds : Descriptors) (s : TcpServer)
    → Tracks fds s
    → AreUnused fds (handle_new_connection accepted s).1
    → Lawful fds (handle_new_connection accepted s)
unfolding handle_new_connection open_after
handle_new_connection-Lawful [] fds s t u = (tt, t)
handle_new_connection-Lawful ((fd, true) ∷ accepted) fds s t u =
    handle_new_connection-Lawful accepted (set_open fd 1 fds)
      (record s { clients = put ℕ_discrete fd (client_connection fd) s.clients })
      (Tracks-put fds s fd t u.0) u.1
handle_new_connection-Lawful ((fd, false) ∷ accepted) fds s t u =
    let (a, b) =
      handle_new_connection-Lawful accepted (set_open fd 0 (set_open fd 1 fds)) s
        (Tracks-same fds (set_open fd 0 (set_open fd 1 fds)) s (λ j. ground (arith, u.0)) t) u.1 in
    ((ground arith, a), b)

-- What the loops over a client's bytes leave.
module _ (fds : Descriptors) (s : TcpServer) (fd : ℕ) (client : ClientConnection) (t : Tracks fds s)
    (h : find ℕ_discrete fd s.clients ≡ some client) where
  abbrev written : Reading → TcpServer
  written r = record s {
    cache = r.cache;
    clients = put ℕ_discrete fd (record client { buffer = r.buffer }) s.clients;
  }

  written-Tracks : (r : Reading) → Tracks fds (written r)
  written-Tracks r =
      let client' : ClientConnection = record client { buffer = r.buffer } in
      let mine = t.own fd client h in
      record {
        held = λ j. ground (arith, t.held j, find-put ℕ_discrete fd j client' s.clients);
        once = t.once;
        distinct = put-Distinct ℕ_discrete fd client' s.clients t.distinct;
        own = λ j c e. ground (arith, t.own j c, find-put ℕ_discrete fd j client' s.clients);
      }

  written_there :
      (r : Reading)
      → find ℕ_discrete fd (written r).clients ≡ some (record client { buffer = r.buffer })
  written_there r =
      ground (arith, find-put ℕ_discrete fd fd (record client { buffer = r.buffer }) s.clients)

  pub leave-Lawful : (r : Reading) → AreSent fd r.effects → Lawful fds (leave fd client s r)
  unfolding leave handle_client_disconnect open_after
  leave-Lawful r sent =
      let same = AreSent-open_after fds fd r.effects sent in
      let (used, gone) =
        Tracks-erase fds (written r) fd (record client { buffer = r.buffer }) (written-Tracks r)
          (written_there r) in
      let sends = AreSent-AreOpen fds fd r.effects used sent in
      elim (Bool-cases r.open_still) [
        | inl still ↦
            rw (leave, still)
              (sends, subst (λ f. Tracks f (written r)) (sym same) (written-Tracks r))
        | inr closed ↦
            let after = open_after-append fds r.effects (closed_socket fd ∷ []) in
            rw (leave, closed)
              (
                append-AreOpen fds r.effects (closed_socket fd ∷ []) sends
                    (ap (λ f. f fd) same ∙ used, tt),
                subst (λ f. Tracks f (handle_client_disconnect fd (written r)).0)
                    (ap (set_open fd 0) (sym same) ∙ sym after) gone,
              )
      ]

-- What may be said of a call that ends.
abbrev pub LawfulIf : Descriptors → Option (TcpServer × List Effect) → Type 0
LawfulIf fds none = Unit
LawfulIf fds (some r) = AreUnused fds r.1 → Lawful fds r

handle_client_data-LawfulIf :
    (fd : ℕ) (received : List Received) (sends : List Sent) (now : ℕ) (fds : Descriptors)
    (s : TcpServer)
    → Tracks fds s
    → LawfulIf fds (handle_client_data fd received sends now s)
unfolding handle_client_data open_after
handle_client_data-LawfulIf fd received sends now fds s t =
    elim (Option-cases (find ℕ_discrete fd s.clients)) [
      | inl h ↦ rw (handle_client_data, h) (λ u. (tt, t))
      | inr (client, h) ↦
          let o = receive_loop fd client.client_id now received client.buffer s.cache sends in
          rw (handle_client_data, h)
            (then_leave-LawfulIf fds fd client s t h o
              (receive_loop-Sends fd client.client_id now received client.buffer s.cache sends))
    ]
  where
    then_leave-LawfulIf :
        (fds : Descriptors) (fd : ℕ) (client : ClientConnection) (s : TcpServer)
        → Tracks fds s
        → find ℕ_discrete fd s.clients ≡ some client
        → (o : Option Reading) → Sends fd o
        → LawfulIf fds (then_leave fd client s o)
    then_leave-LawfulIf fds fd client s t h none k = tt
    then_leave-LawfulIf fds fd client s t h (some r) k = λ u. leave-Lawful fds s fd client t h r k

pub handle_event-LawfulIf :
    (event : Event) (fds : Descriptors) (s : TcpServer)
    → Tracks fds s
    → LawfulIf fds (handle_event event s)
unfolding handle_event
handle_event-LawfulIf (new_connection accepted) fds s t =
    handle_new_connection-Lawful accepted fds s t
handle_event-LawfulIf (client_data fd received sends now) fds s t =
    handle_client_data-LawfulIf fd received sends now fds s t
