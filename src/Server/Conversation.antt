-- ===== src/Server/Conversation.antt =====
-- `handle_client_data` of server.cpp from the bytes of a client to the bytes of the answers:
-- commands whose messages come in any chunks.
mod Tests
use os_lab.Base.{
  ℕ, zero, suc, ◌+◌, ◌≤◌, ◌≡◌, refl, sym, ap, ◌∙◌, subst, inl, inr, true, false, Option, none, some,
  List, [], ◌∷◌, ◌++◌, Str, arith, length, map, Option-cases, ltb, ℕ_discrete,
}
use mathlib.Core.List.{append-nil, map-append}
use os_lab.Dict.{find, put}
use os_lab.Texts.{take, drop}
use os_lab.PagedCache.{PagedCache}
use os_lab.Protocol.{Command, parse_message}
use os_lab.Server.{process_command}
use os_lab.Server.Connections.{
  ClientConnection, TcpServer, Effect, sent_bytes, Sent, took, Sending, send_loop, send_response,
}
use os_lab.Server.Receive.{take_message, c_string, Handled, answer_first, messages, receive}
use os_lab.Server.Data.{
  Received, got, Reading, left, effects_first, message_loop, receive_loop, leave, then_leave,
  handle_client_data,
}
use os_lab.Server.Chunks.{
  loop-none, loop-some, c_string-append, joined, receive-append, length-take_message, no_message,
}
use os_lab.Server.Pipeline.{texts, ArePrintable, answer_all, receive-texts}
use os_lab.Server.Answers.{sends_for, heard, message_loop-messages}

-- All bytes of the chunks.
abbrev pub joined_chunks : List Str → Str
joined_chunks [] = []
joined_chunks (chunk ∷ chunks) = chunk ++ joined_chunks chunks

-- No chunk has a zero byte.
abbrev pub AreClean : List Str → Type 0
AreClean [] = Unit
AreClean (chunk ∷ chunks) = (c_string chunk ≡ chunk) × AreClean chunks

sends_for-append :
    (answers more_answers : List Str) (more : List Sent)
    → sends_for (answers ++ more_answers) more ≡ sends_for answers (sends_for more_answers more)
sends_for-append [] more_answers more = refl
sends_for-append ([] ∷ answers) more_answers more = sends_for-append answers more_answers more
sends_for-append ((c ∷ s) ∷ answers) more_answers more =
    ap (λ l. took (length (c ∷ s)) ∷ l) (sends_for-append answers more_answers more)

module _ (fd : ℕ) (client_id : Str) (now : ℕ) where
  -- One chunk after the other.
  abbrev receive_chunks : List Str → Str → PagedCache → Handled
  receive_chunks [] b c = record { answers = []; buffer = b; cache = c }
  receive_chunks (chunk ∷ chunks) b c =
      let h = receive client_id now chunk b c in
      joined client_id now h.answers (receive_chunks chunks h.buffer h.cache)

  receive_loop-chunk :
      (chunk : Str) (received : List Received) (b : Str) (c : PagedCache) (sends more : List Sent)
      (h : Handled)
      → message_loop fd client_id now (length (b ++ c_string chunk)) (b ++ c_string chunk) c sends
        ≡ some (heard fd client_id now h more)
      → receive_loop fd client_id now (got chunk ∷ received) b c sends
        ≡ effects_first
            (map (sent_bytes fd) h.answers)
            (receive_loop fd client_id now received h.buffer h.cache more)
  unfolding receive_loop
  receive_loop-chunk chunk received b c sends more h e = rw (receive_loop, e)

  heard-append :
      (answers : List Str) (h : Handled) (more : List Sent)
      → effects_first (map (sent_bytes fd) answers) (some (heard fd client_id now h more))
        ≡ some (heard fd client_id now (joined client_id now answers h) more)
  heard-append answers h more =
      ap (λ l. some (left true h.buffer h.cache more l))
        (sym (map-append (sent_bytes fd) answers h.answers))

  receive_loop-chunks :
      (chunks : List Str) (b : Str) (c : PagedCache) (more : List Sent)
      → (let h = receive_chunks chunks b c in
          receive_loop fd client_id now (map got chunks) b c (sends_for h.answers more)
          ≡ some (heard fd client_id now h more))
  unfolding receive
  receive_loop-chunks [] b c more = unfold receive_loop in refl
  receive_loop-chunks (chunk ∷ chunks) b c more =
      let all = b ++ c_string chunk in
      let h = messages client_id now (length all) all c in
      let later = receive_chunks chunks h.buffer h.cache in
      let rest = sends_for later.answers more in
      receive_loop-chunk chunk (map got chunks) b c (sends_for (h.answers ++ later.answers) more)
        rest h
        (ap (message_loop fd client_id now (length all) all c)
            (sends_for-append h.answers later.answers more)
          ∙ message_loop-messages fd client_id now (length all) all c rest)
      ∙ ap (effects_first (map (sent_bytes fd) h.answers))
          (receive_loop-chunks chunks h.buffer h.cache more)
      ∙ heard-append h.answers later more

  -- A buffer without a message stays one.
  messages-none :
      (fuel : ℕ) (b : Str) (c : PagedCache)
      → length b ≤ fuel
      → take_message (messages client_id now fuel b c).buffer ≡ none
  messages-none zero b c h = unfold messages in no_message client_id now b h
  messages-none (suc fuel) b c h = elim (Option-cases (take_message b)) [
    | inl n ↦ ap (λ x. take_message x.buffer) (loop-none client_id now (suc fuel) b c n) ∙ n
    | inr ((message, rest), e) ↦
        let (answer, c') = process_command (parse_message message) client_id now c in
        ap (λ x. take_message x.buffer) (loop-some client_id now fuel b message rest c e)
        ∙ messages-none fuel rest c' (omega (arith, length-take_message b message rest e))
  ]

  receive_chunks-joined :
      (chunks : List Str) (b : Str) (c : PagedCache)
      → AreClean chunks
      → take_message b ≡ none
      → receive_chunks chunks b c ≡ receive client_id now (joined_chunks chunks) b c
  unfolding receive c_string
  receive_chunks-joined [] b c clean h = sym (
      ap (λ s. messages client_id now (length s) s c) (append-nil b)
      ∙ loop-none client_id now (length b) b c h)
  receive_chunks-joined (chunk ∷ chunks) b c clean h =
      let heard_first = receive client_id now chunk b c in
      let all = b ++ c_string chunk in
      ap (joined client_id now heard_first.answers) (
        receive_chunks-joined chunks heard_first.buffer heard_first.cache clean.1
          (messages-none (length all) all c (omega arith)))
      ∙ sym (receive-append client_id now chunk (joined_chunks chunks) b c clean.0)

clean-joined_chunks :
    (chunks : List Str) → AreClean chunks → c_string (joined_chunks chunks) ≡ joined_chunks chunks
unfolding c_string
clean-joined_chunks [] clean = refl
clean-joined_chunks (chunk ∷ chunks) clean =
    c_string-append chunk (joined_chunks chunks) clean.0
    ∙ ap (λ s. chunk ++ s) (clean-joined_chunks chunks clean.1)

answer_all-buffer :
    (client_id : Str) (now : ℕ) (cmds : List Command) (part : Str) (c : PagedCache)
    → (answer_all client_id now cmds part c).buffer ≡ part
answer_all-buffer client_id now [] part c = refl
answer_all-buffer client_id now (cmd ∷ cmds) part c =
    answer_all-buffer client_id now cmds part (process_command cmd client_id now c).1

-- The server after a client's commands were answered as `h` says.
abbrev pub after_answers : ℕ → ClientConnection → TcpServer → Handled → Str → TcpServer
after_answers fd client s h part = record s {
  cache = h.cache;
  clients = put ℕ_discrete fd (record client { buffer = part }) s.clients;
}

-- A client with an empty buffer sends any commands, each of them one that can be printed in one
-- line per field, and perhaps the beginning of another message. The bytes come in any chunks, none
-- of them with a zero byte, and `send` takes each answer at once. Then `handle_client_data` sends
-- just the answers that `process_command` gives to the commands, one after the other for the
-- client's identity, keeps the cache that they leave, and the unfinished message in the client's
-- buffer.
pub handle_client_data-texts :
    (fd now : ℕ) (client : ClientConnection) (s : TcpServer) (cmds : List Command) (part : Str)
    (chunks : List Str)
    → find ℕ_discrete fd s.clients ≡ some client
    → client.buffer ≡ []
    → ArePrintable cmds
    → take_message part ≡ none
    → AreClean chunks
    → joined_chunks chunks ≡ texts cmds part
    → (let h = answer_all client.client_id now cmds part s.cache in
        handle_client_data fd (map got chunks) (sends_for h.answers []) now s
        ≡ some (after_answers fd client s h part, map (sent_bytes fd) h.answers))
unfolding handle_client_data leave take_message
handle_client_data-texts fd now client s cmds part chunks found empty p incomplete clean same =
    let id = client.client_id in
    let h = answer_all id now cmds part s.cache in
    let e : receive_chunks fd id now chunks [] s.cache ≡ h =
      receive_chunks-joined fd id now chunks [] s.cache clean refl
      ∙ ap (λ t. receive id now t [] s.cache) same
      ∙ receive-texts id now cmds part s.cache p incomplete
          (subst (λ t. c_string t ≡ t) same (clean-joined_chunks chunks clean)) in
    let loops : receive_loop fd id now (map got chunks) client.buffer s.cache
          (sends_for h.answers [])
        ≡ some (heard fd id now h []) =
      subst
        (λ x.
          receive_loop fd id now (map got chunks) client.buffer s.cache (sends_for x.answers [])
          ≡ some (heard fd id now x []))
        e
        (ap
            (λ b.
              receive_loop fd id now (map got chunks) b s.cache
                (sends_for (receive_chunks fd id now chunks [] s.cache).answers []))
            empty
          ∙ receive_loop-chunks fd id now chunks [] s.cache []) in
    rw (handle_client_data, found)
      (ap (then_leave fd client s) loops
        ∙ ap (λ b. some (after_answers fd client s h b, map (sent_bytes fd) h.answers))
            (answer_all-buffer id now cmds part s.cache))
