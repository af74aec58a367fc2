-- ===== src/Server/Answers.antt =====
-- The loop over the messages of `handle_client_data` of server.cpp, when each answer goes out at
-- once.
use os_lab.Base.{
  ℕ, zero, suc, ◌+◌, ◌≤◌, ◌≡◌, refl, ap, ◌∙◌, inl, inr, true, false, none, some, List, [], ◌∷◌,
  ◌++◌, Str, arith, length, map, Option-cases, ltb,
}
use os_lab.Texts.{take, drop}
use os_lab.PagedCache.{PagedCache}
use os_lab.Protocol.{parse_message}
use os_lab.Server.{process_command}
use os_lab.Server.Connections.{sent_bytes, Sent, took, send_loop, send_response}
use os_lab.Server.Receive.{take_message, Handled, messages}
use os_lab.Server.Data.{Reading, left, effects_first, message_loop}
use os_lab.Server.Chunks.{loop-none, loop-some}

-- Each answer goes out in one call of `send`, and an empty one in none.
abbrev pub sends_for : List Str → List Sent → List Sent
sends_for [] more = more
sends_for ([] ∷ answers) more = sends_for answers more
sends_for ((c ∷ s) ∷ answers) more = took (length (c ∷ s)) ∷ sends_for answers more

take-length : (s : Str) → take (length s) s ≡ s
unfolding take
take-length [] = refl
take-length (c ∷ s) = ap (λ t. c ∷ t) (take-length s)

pub send_loop-done :
    (sends : List Sent) (response : Str) (n : ℕ) (out : Str)
    → length response ≤ n
    → send_loop sends response n out ≡ some (record { done = true; out = out; sends = sends })
unfolding send_loop
send_loop-done [] response n out h =
    let over : ltb n (length response) ≡ false = ground arith in rw (send_loop, over)
send_loop-done (r ∷ sends) response n out h =
    let over : ltb n (length response) ≡ false = ground arith in rw (send_loop, over)

send_loop-took :
    (sends : List Sent) (response : Str) (n total_sent : ℕ) (out : Str)
    → ltb total_sent (length response) ≡ true
    → send_loop (took n ∷ sends) response total_sent out
      ≡ send_loop sends response (total_sent + n) (out ++ take n (drop total_sent response))
unfolding send_loop
send_loop-took sends response n total_sent out h = rw (send_loop, h)

pub send_response-whole :
    (response : Str) (answers : List Str) (more : List Sent)
    → send_response (sends_for (response ∷ answers) more) response
      ≡ some (record { done = true; out = response; sends = sends_for answers more })
unfolding send_response send_loop drop
send_response-whole [] answers more = send_loop-done (sends_for answers more) [] 0 [] (omega arith)
send_response-whole (c ∷ s) answers more =
    let response = c ∷ s in
    let n = length response in
    let rest = sends_for answers more in
    send_loop-took rest response n 0 [] (ground arith)
    ∙ send_loop-done rest response (0 + n) (take n response) (omega arith)
    ∙ ap (λ out. some (record { done = true; out = out; sends = rest })) (take-length response)

module _ (fd : ℕ) (client_id : Str) (now : ℕ) where
  -- What the loop over the messages leaves, when `h` is what it does to the answers alone.
  abbrev pub heard : Handled → List Sent → Reading
  heard h more = left true h.buffer h.cache more (map (sent_bytes fd) h.answers)

  message_loop-none :
      (fuel : ℕ) (b : Str) (c : PagedCache) (sends : List Sent)
      → take_message b ≡ none
      → message_loop fd client_id now fuel b c sends ≡ some (left true b c sends [])
  unfolding message_loop
  message_loop-none zero b c sends h = refl
  message_loop-none (suc fuel) b c sends h = rw (message_loop, h)

  message_loop-some :
      (fuel : ℕ) (b message rest : Str) (c : PagedCache) (sends more : List Sent)
      → take_message b ≡ some (message, rest)
      → (let (answer, c') = process_command (parse_message message) client_id now c in
          send_response sends answer ≡ some (record { done = true; out = answer; sends = more })
          → message_loop fd client_id now (suc fuel) b c sends
            ≡ effects_first
                (sent_bytes fd answer ∷ [])
                (message_loop fd client_id now fuel rest c' more))
  unfolding message_loop
  message_loop-some fuel b message rest c sends more h sent = rw (message_loop, h, sent)

  pub message_loop-messages :
      (fuel : ℕ) (b : Str) (c : PagedCache) (more : List Sent)
      → (let h = messages client_id now fuel b c in
          message_loop fd client_id now fuel b c (sends_for h.answers more) ≡ some (heard h more))
  message_loop-messages zero b c more = unfold messages message_loop in refl
  message_loop-messages (suc fuel) b c more = elim (Option-cases (take_message b)) [
    | inl n ↦
        rw (loop-none client_id now (suc fuel) b c n) (message_loop-none (suc fuel) b c more n)
    | inr ((message, rest), h) ↦
        let (answer, c') = process_command (parse_message message) client_id now c in
        let later = messages client_id now fuel rest c' in
        rw (loop-some client_id now fuel b message rest c h) (
          message_loop-some fuel b message rest c (sends_for (answer ∷ later.answers) more)
            (sends_for later.answers more) h (send_response-whole answer later.answers more)
          ∙ ap (effects_first (sent_bytes fd answer ∷ []))
              (message_loop-messages fuel rest c' more))
  ]
