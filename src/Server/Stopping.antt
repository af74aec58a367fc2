-- ===== src/Server/Stopping.antt =====
-- The descriptors that `stop` of server.cpp closes.
use os_lab.Base.{
  ℕ, ◌+◌, ◌≤◌, ◌≡◌, sym, ap, subst, ◌∙◌, Option, none, some, [], ◌∷◌, ◌++◌, map, ℕ_discrete, arith,
}
use os_lab.Dict.{Dict, find, Distinct}
use os_lab.Server.Connections.{ClientConnection, TcpServer, closed_socket}
use os_lab.Server.Startup.{close, stop}
use os_lab.Server.Log.{
  Descriptors, set_open, open_after, AreOpen, open_after-append, append-AreOpen,
}
use os_lab.Server.Lifecycle.{in_table, is_fd, Tracks}

-- The connections of a table are closed one by one.
table_closed :
    (m : Dict ℕ ClientConnection) (fds : Descriptors)
    → Distinct ℕ_discrete m
    → ((fd : ℕ) (client : ClientConnection)
        → find ℕ_discrete fd m ≡ some client
        → client.socket_fd ≡ fd)
    → ((fd : ℕ) → in_table fd m ≤ fds fd)
    → ((fd : ℕ) → fds fd ≤ 1)
    → let log = map (λ entry. closed_socket (entry.1).socket_fd) m in
      AreOpen fds log × ((fd : ℕ) → open_after fds log fd + in_table fd m ≡ fds fd)
unfolding open_after find
table_closed [] fds d own le once = (tt, λ fd. omega arith)
table_closed ((k, client) ∷ m) fds d own le once =
    let mine : client.socket_fd ≡ k = own k client (ground arith) in
    let (a, b) =
      table_closed m (set_open k 0 fds) d.1 (λ fd c h. own fd c (ground (arith, d.0)))
        (λ fd. ground (arith, le fd, d.0)) (λ fd. ground (arith, once fd)) in
    rw mine ((ground (arith, le k, once k), a), λ fd. ground (arith, b fd, le fd, once fd, d.0))

-- A socket of the server is closed, if there is one.
close_lem :
    (o : Option ℕ) (fds rest : Descriptors)
    → ((fd : ℕ) → is_fd fd o + rest fd ≡ fds fd)
    → ((fd : ℕ) → fds fd ≤ 1)
    → AreOpen fds (close o) × ((fd : ℕ) → open_after fds (close o) fd ≡ rest fd)
unfolding open_after
close_lem none fds rest h once = (tt, λ fd. omega (arith, h fd))
close_lem (some k) fds rest h once =
    ((ground (arith, h k, once k), tt), λ fd. ground (arith, h fd, once fd))

-- No descriptor is open.
abbrev pub nothing_open : Descriptors
nothing_open fd = 0

-- The open descriptors are those of the table, the two of the server and others, each once.
pub record Leaks (fds rest : Descriptors) (s : TcpServer) : Type 0 where
  pub held :
      (fd : ℕ)
      → in_table fd s.clients + is_fd fd s.server_socket + is_fd fd s.epoll_fd + rest fd ≡ fds fd
  pub once : (fd : ℕ) → fds fd ≤ 1
  pub distinct : Distinct ℕ_discrete s.clients
  pub own :
      (fd : ℕ) (client : ClientConnection)
      → find ℕ_discrete fd s.clients ≡ some client
      → client.socket_fd ≡ fd

pub Tracks-Leaks : (fds : Descriptors) (s : TcpServer) → Tracks fds s → Leaks fds nothing_open s
Tracks-Leaks fds s t = record {
  held = λ fd. omega (arith, t.held fd);
  once = t.once;
  distinct = t.distinct;
  own = t.own;
}

pub stop_lem :
    (fds rest : Descriptors) (s : TcpServer)
    → Leaks fds rest s
    → AreOpen fds (stop s).1 × ((fd : ℕ) → open_after fds (stop s).1 fd ≡ rest fd)
unfolding stop
stop_lem fds rest s t =
    let log = map (λ entry. closed_socket (entry.1).socket_fd) s.clients in
    let (a, e) =
      table_closed s.clients fds t.distinct t.own (λ fd. omega (arith, t.held fd)) t.once in
    let fds₁ = open_after fds log in
    let (b, e₁) =
      close_lem s.server_socket fds₁ (λ fd. is_fd fd s.epoll_fd + rest fd)
        (λ fd. omega (arith, e fd, t.held fd)) (λ fd. omega (arith, e fd, t.once fd)) in
    let fds₂ = open_after fds₁ (close s.server_socket) in
    let (c, e₂) =
      close_lem s.epoll_fd fds₂ rest (λ fd. omega (arith, e₁ fd))
        (λ fd. omega (arith, e₁ fd, e fd, t.held fd, t.once fd)) in
    let both = open_after-append fds log (close s.server_socket) in
    let all = open_after-append fds (log ++ close s.server_socket) (close s.epoll_fd) in
    (
      append-AreOpen fds (log ++ close s.server_socket) (close s.epoll_fd)
          (append-AreOpen fds log (close s.server_socket) a b)
          (subst (λ f. AreOpen f (close s.epoll_fd)) (sym both) c),
      λ fd. ap (λ f. f fd) (all ∙ ap (λ f. open_after f (close s.epoll_fd)) both) ∙ e₂ fd,
    )
