-- ===== src/Server/Events.antt =====
-- Any events of `run` of server.cpp: the state of the server stays valid, and what the connections
-- may do to one another.
use os_lab.Base.{
  ℕ, ◌<◌, ◌≡◌, ◌≢◌, refl, sym, ◌∙◌, ap, subst, Bool, true, false, some, none, Option, List, [], ◌∷◌,
  ◌++◌, Str, Str-discrete, ℕ_discrete, Bool-cases, Option-cases, inl, inr, arith,
}
use os_lab.Decimal.{to_string, to_string-injective}
use os_lab.Dict.{
  find, put, erase, Distinct, find-put, find-erase, find-erase_self, put-Distinct, erase-Distinct,
}
use os_lab.PagedCache.{CacheEntry, PagedCache}
use os_lab.PagedCache.Valid.{IsValid, init-IsValid}
use os_lab.Protocol.{bytes, Command}
use os_lab.Server.{process_command}
use os_lab.Server.Connections.{
  ClientConnection, client_connection, TcpServer, tcp_server, Effect, Sent, handle_new_connection,
  handle_client_disconnect,
}
use os_lab.Server.Data.{
  Received, Reading, leave, then_leave, receive_loop, handle_client_data, Event, new_connection,
  client_data, handle_event, effects_before, run,
}
use os_lab.Server.Served.{Served, Served-refl, Leaves, receive_loop-Served}

-- The identity that a connection gets from its descriptor.
abbrev pub id_of : ℕ → Str
id_of fd = bytes "client_" ++ to_string fd

drop_prefix : Str → Str → Str
drop_prefix [] s = s
drop_prefix (c ∷ p) [] = []
drop_prefix (c ∷ p) (d ∷ s) = drop_prefix p s

id_of-injective : (fd other : ℕ) → id_of fd ≡ id_of other → fd ≡ other
unfolding drop_prefix
id_of-injective fd other h = to_string-injective fd other (ap (drop_prefix (bytes "client_")) h)

pub record IsSound (n : ℕ) (s : TcpServer) : Type 0 where
  pub cache : IsValid n s.cache
  pub distinct : Distinct ℕ_discrete s.clients
  pub clients :
      (fd : ℕ) (client : ClientConnection)
      → find ℕ_discrete fd s.clients ≡ some client
      → (client.socket_fd ≡ fd) × (client.client_id ≡ id_of fd)

-- A connection in the table, in place of one with the same descriptor if there is one.
put-IsSound :
    (n : ℕ) (s : TcpServer) (c : PagedCache) (fd : ℕ) (client : ClientConnection)
    → IsSound n s
    → IsValid n c
    → client.socket_fd ≡ fd
    → client.client_id ≡ id_of fd
    → IsSound n (record s { cache = c; clients = put ℕ_discrete fd client s.clients })
put-IsSound n s c fd client v w f i = record {
  cache = w;
  distinct = put-Distinct ℕ_discrete fd client s.clients v.distinct;
  clients = λ fd' client' h. elim (ℕ_discrete fd' fd) [
    | yes same ↦
        let e : client' ≡ client = ground (arith, find-put ℕ_discrete fd fd' client s.clients) in
        (
          ap (λ (x : ClientConnection). x.socket_fd) e ∙ f ∙ sym same,
          ap (λ (x : ClientConnection). x.client_id) e ∙ i ∙ ap id_of (sym same),
        )
    | no other ↦ v.clients fd' client' (ground (arith, find-put ℕ_discrete fd fd' client s.clients))
  ];
}

disconnect-IsSound :
    (n fd : ℕ) (s : TcpServer) → IsSound n s → IsSound n (handle_client_disconnect fd s).0
unfolding handle_client_disconnect
disconnect-IsSound n fd s v = record {
  cache = v.cache;
  distinct = erase-Distinct ℕ_discrete fd s.clients v.distinct;
  clients = λ fd' client' h.
      v.clients fd' client' (ground (arith, find-erase ℕ_discrete fd fd' s.clients v.distinct));
}

new_connection-IsSound :
    (n : ℕ) (accepted : List (ℕ × Bool)) (s : TcpServer)
    → IsSound n s
    → IsSound n (handle_new_connection accepted s).0
unfolding handle_new_connection client_connection
new_connection-IsSound n [] s v = v
new_connection-IsSound n ((fd, true) ∷ accepted) s v =
    new_connection-IsSound n accepted
      (record s { clients = put ℕ_discrete fd (client_connection fd) s.clients })
      (put-IsSound n s s.cache fd (client_connection fd) v v.cache refl refl)
new_connection-IsSound n ((fd, false) ∷ accepted) s v = new_connection-IsSound n accepted s v

-- The state that a call or a run leaves, if it ends.
abbrev Keeps : (TcpServer → Type 0) → Option (TcpServer × List Effect) → Type 0
Keeps P none = Unit
Keeps P (some r) = P r.0

Keeps-effects_before :
    (P : TcpServer → Type 0) (effects : List Effect) (o : Option (TcpServer × List Effect))
    → Keeps P o
    → Keeps P (effects_before effects o)
Keeps-effects_before P effects none k = tt
Keeps-effects_before P effects (some r) k = k

module _ (n fd : ℕ) (client : ClientConnection) (s : TcpServer) (v : IsSound n s)
    (f : client.socket_fd ≡ fd) (i : client.client_id ≡ id_of fd) where
  leave-IsSound : (r : Reading) → IsValid n r.cache → IsSound n (leave fd client s r).0
  unfolding leave
  leave-IsSound r w =
      let s' : TcpServer = record s {
        cache = r.cache;
        clients = put ℕ_discrete fd (record client { buffer = r.buffer }) s.clients;
      } in
      let v' : IsSound n s' =
        put-IsSound n s r.cache fd (record client { buffer = r.buffer }) v w f i in
      elim (Bool-cases r.open_still) [
        | inl still ↦ rw (leave, still) v'
        | inr closed ↦ rw (leave, closed) (disconnect-IsSound n fd s' v')
      ]

  leave-cache : (r : Reading) → (leave fd client s r).0.cache ≡ r.cache
  unfolding leave handle_client_disconnect
  leave-cache r = elim (Bool-cases r.open_still) [
    | inl still ↦ rw (leave, still)
    | inr closed ↦ rw (leave, closed)
  ]

  then_leave-IsSound :
      (o : Option Reading)
      → Leaves n (id_of fd) s.cache o
      → Keeps (λ s'. IsSound n s' × Served n (id_of fd) s.cache s'.cache) (then_leave fd client s o)
  then_leave-IsSound none l = tt
  then_leave-IsSound (some r) l = (leave-IsSound r l.valid, rw (leave-cache r) l)

Keeps-map :
    (P Q : TcpServer → Type 0)
    → ((s : TcpServer) → P s → Q s)
    → (o : Option (TcpServer × List Effect)) → Keeps P o
    → Keeps Q o
Keeps-map P Q f none k = tt
Keeps-map P Q f (some r) k = f r.0 k

-- What bytes on a connection do: the state stays valid, and the cache has been served the commands
-- of the connection's identity.
handle_client_data-Keeps :
    (n fd : ℕ) (received : List Received) (sends : List Sent) (now : ℕ) (s : TcpServer)
    → IsSound n s
    → Keeps
        (λ s'. IsSound n s' × Served n (id_of fd) s.cache s'.cache)
        (handle_client_data fd received sends now s)
unfolding handle_client_data
handle_client_data-Keeps n fd received sends now s v =
    elim (Option-cases (find ℕ_discrete fd s.clients)) [
      | inl h ↦ rw (handle_client_data, h) (v, Served-refl n (id_of fd) s.cache v.cache)
      | inr (client, h) ↦
          let o = receive_loop fd client.client_id now received client.buffer s.cache sends in
          let (f, i) = v.clients fd client h in
          rw (handle_client_data, h)
            (then_leave-IsSound n fd client s v f i o (
              subst (λ id. Leaves n id s.cache o) i
                (receive_loop-Served n fd client.client_id now received client.buffer s.cache sends
                  v.cache)))
    ]

handle_event-IsSound :
    (n : ℕ) (event : Event) (s : TcpServer) → IsSound n s → Keeps (IsSound n) (handle_event event s)
unfolding handle_event
handle_event-IsSound n (new_connection accepted) s v = new_connection-IsSound n accepted s v
handle_event-IsSound n (client_data fd received sends now) s v =
    Keeps-map (λ s'. IsSound n s' × Served n (id_of fd) s.cache s'.cache) (IsSound n) (λ s' k. k.0)
      (handle_client_data fd received sends now s)
      (handle_client_data-Keeps n fd received sends now s v)

run-Keeps :
    (n : ℕ) (events : List Event) (s : TcpServer) → IsSound n s → Keeps (IsSound n) (run events s)
unfolding run
run-Keeps n [] s v = v
run-Keeps n (event ∷ events) s v =
    let k = handle_event-IsSound n event s v in
    elim (Option-cases (handle_event event s)) [
      | inl blocked ↦ rw (run, blocked) tt
      | inr (r, h) ↦
          rw (run, h)
            (Keeps-effects_before (IsSound n) r.1 (run events r.0)
              (run-Keeps n events r.0 (subst (Keeps (IsSound n)) h k)))
    ]

Keeps-some :
    (P : TcpServer → Type 0) (o : Option (TcpServer × List Effect)) (s : TcpServer)
    (effects : List Effect)
    → Keeps P o
    → o ≡ some (s, effects)
    → P s
Keeps-some P o s effects k h = let p : Keeps P (some (s, effects)) = subst (Keeps P) h k in p

-- After any events on a new server of at least one page, the cache is valid, no descriptor is twice
-- in the table, and each connection has the identity of its own descriptor.
pub run-IsSound :
    (n : ℕ) (events : List Event) (s : TcpServer) (effects : List Effect)
    → 0 < n
    → run events (tcp_server n) ≡ some (s, effects)
    → IsSound n s
unfolding tcp_server
run-IsSound n events s effects h r =
    Keeps-some (IsSound n) (run events (tcp_server n)) s effects
      (run-Keeps n events (tcp_server n) (record {
        cache = init-IsValid n h;
        distinct = tt;
        clients = λ fd client e. absurd (unfold find in ground arith);
      }))
      r

-- In a sound server the bytes of one connection change no entry of another connection's identity:
-- each such entry that is there afterwards was there before, as it is, whatever the calls of `recv`
-- and `send` return.
pub handle_client_data-foreign :
    (n fd other : ℕ) (received : List Received) (sends : List Sent) (now : ℕ) (s s' : TcpServer)
    (effects : List Effect) (k : Str) (e : CacheEntry)
    → IsSound n s
    → fd ≢ other
    → handle_client_data fd received sends now s ≡ some (s', effects)
    → find Str-discrete k s'.cache.cache_map ≡ some e
    → e.client_id ≡ id_of other
    → find Str-discrete k s.cache.cache_map ≡ some e
handle_client_data-foreign n fd other received sends now s s' effects k e v d h found owner =
    let p =
      Keeps-some (λ t. IsSound n t × Served n (id_of fd) s.cache t.cache)
        (handle_client_data fd received sends now s) s' effects
        (handle_client_data-Keeps n fd received sends now s v) h in
    p.1.foreign k e found (λ mine. d (id_of-injective fd other (sym mine ∙ owner)))

-- A connection that comes on the descriptor of one that has gone gets its identity: each command is
-- answered, and changes the cache, as if the old connection had sent it.
pub reconnect-id :
    (n fd : ℕ) (client : ClientConnection) (s : TcpServer)
    → IsSound n s
    → find ℕ_discrete fd s.clients ≡ some client
    → let s₁ = (handle_client_disconnect fd s).0 in
      let s₂ = (handle_new_connection ((fd, true) ∷ []) s₁).0 in
      (find ℕ_discrete fd s₁.clients ≡ none)
      × ((client' : ClientConnection) × (find ℕ_discrete fd s₂.clients ≡ some client')
          × ((cmd : Command) (now : ℕ)
              → process_command cmd client'.client_id now s₂.cache
                ≡ process_command cmd client.client_id now s.cache))
unfolding handle_client_disconnect handle_new_connection client_connection
reconnect-id n fd client s v h = (
  find-erase_self ℕ_discrete fd s.clients v.distinct,
  (
    client_connection fd,
    ground
        (arith, find-put ℕ_discrete fd fd (client_connection fd) (erase ℕ_discrete fd s.clients)),
    λ cmd now. ap (λ id. process_command cmd id now s.cache) (sym (v.clients fd client h).1),
  ),
)
