-- ===== src/Server/Chunking.antt =====
-- How a client's bytes are cut into chunks does not matter to `handle_client_data` of server.cpp,
-- whatever `send` does.
use os_lab.Base.{
  ℕ, ◌≡◌, refl, sym, ap, ◌∙◌, inl, inr, true, false, some, Option, List, [], ◌∷◌, ◌++◌, Str, arith,
  Option-cases, ℕ_discrete,
}
use os_lab.Dict.{Dict, find, put, erase}
use os_lab.Server.Connections.{
  ClientConnection, TcpServer, closed_socket, Sent, handle_client_disconnect,
}
use os_lab.Server.Receive.{c_string}
use os_lab.Server.Data.{Received, got, Reading, receive_loop, leave, then_leave, handle_client_data}
use os_lab.Server.Readings.{forget, ByOpen, by_open}
use os_lab.Server.Joined.{receive_loop-append}

erase-put :
    (fd : ℕ) (client : ClientConnection) (m : Dict ℕ ClientConnection)
    → erase ℕ_discrete fd (put ℕ_discrete fd client m) ≡ erase ℕ_discrete fd m
unfolding erase put
erase-put fd client [] = ground arith
erase-put fd client ((k, x) ∷ m) = ground (arith, erase-put fd client m)

-- A connection that closes takes its buffer with it.
module _ (fd : ℕ) (client : ClientConnection) (s : TcpServer) where
  then_leave-left : ByOpen (λ o. then_leave fd client s o ≡ then_leave fd client s (forget o))
  unfolding leave handle_client_disconnect
  then_leave-left true b c sends e = refl
  then_leave-left false b c sends e =
      let gone =
        erase-put fd (record client { buffer = b }) s.clients
        ∙ sym (erase-put fd (record client { buffer = [] }) s.clients) in
      ap (λ m. some (record s { cache = c; clients = m }, e ++ closed_socket fd ∷ [])) gone

  then_leave-forget :
      (o : Option Reading) → then_leave fd client s o ≡ then_leave fd client s (forget o)
  then_leave-forget =
      by_open (λ o. then_leave fd client s o ≡ then_leave fd client s (forget o)) refl
        then_leave-left

-- A client's bytes may come in two chunks, the first of them without a zero byte, or in one:
-- whatever else `recv` returns behind them, and whatever `send` does, fails or blocks included,
-- `handle_client_data` ends in the same way, leaves the same server, and sends and closes the same.
pub handle_client_data-append :
    (fd now : ℕ) (first second : Str) (received : List Received) (sends : List Sent) (s : TcpServer)
    → c_string first ≡ first
    → handle_client_data fd (got (first ++ second) ∷ received) sends now s
      ≡ handle_client_data fd (got first ∷ got second ∷ received) sends now s
unfolding handle_client_data
handle_client_data-append fd now first second received sends s clean =
    elim (Option-cases (find ℕ_discrete fd s.clients)) [
      | inl n ↦ rw (handle_client_data, n) refl
      | inr (client, h) ↦
          let one =
            receive_loop fd client.client_id now (got (first ++ second) ∷ received) client.buffer
              s.cache sends in
          let two =
            receive_loop fd client.client_id now (got first ∷ got second ∷ received) client.buffer
              s.cache sends in
          rw (handle_client_data, h)
            (then_leave-forget fd client s one
              ∙ ap (then_leave fd client s) (
                  receive_loop-append fd client.client_id now first second received client.buffer
                    s.cache sends clean)
              ∙ sym (then_leave-forget fd client s two))
    ]
