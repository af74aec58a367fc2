-- ===== src/Server/Joined.antt =====
-- The loops of `handle_client_data` of server.cpp on bytes that come in two chunks, and in one.
use os_lab.Base.{
  ℕ, zero, suc, ◌≤◌, ◌≡◌, refl, sym, ap, ◌∙◌, inl, inr, Bool, true, false, some, none, Option, List,
  [], ◌∷◌, ◌++◌, Str, arith, length, length-append, Option-cases, Bool-cases,
}
use mathlib.Core.List.{append_assoc}
use os_lab.PagedCache.{PagedCache}
use os_lab.Protocol.{parse_message}
use os_lab.Server.{process_command}
use os_lab.Server.Connections.{sent_bytes, Sent, Sending, send_response}
use os_lab.Server.Receive.{take_message, c_string}
use os_lab.Server.Data.{Received, got, Reading, left, effects_first, message_loop, receive_loop}
use os_lab.Server.Chunks.{c_string-append, length-take_message, take_message-append, no_message}
use os_lab.Server.Readings.{
  forget, forget-effects_first, effects_first-nil, go_on, go_on-effects_first, go_on-forget,
  go_on-go_on,
}

module _ (fd : ℕ) (client_id : Str) (now : ℕ) where
  abbrev loop : ℕ → Str → PagedCache → List Sent → Option Reading
  loop = message_loop fd client_id now

  loop-none :
      (fuel : ℕ) (b : Str) (c : PagedCache) (sends : List Sent)
      → take_message b ≡ none
      → loop fuel b c sends ≡ some (left true b c sends [])
  unfolding message_loop
  loop-none zero b c sends h = refl
  loop-none (suc fuel) b c sends h = rw (message_loop, h)

  -- What the answer to a message makes of the rest of the loop.
  abbrev answered : Str → PagedCache → Option Sending → Option Reading → Option Reading
  answered rest c none later = none
  answered rest c (some s) later = elim s.done [
    | false ↦ some (left false rest c s.sends (sent_bytes fd s.out ∷ []))
    | true ↦ effects_first (sent_bytes fd s.out ∷ []) later
  ]

  abbrev sends_left : Option Sending → List Sent
  sends_left none = []
  sends_left (some s) = s.sends

  loop-some :
      (fuel : ℕ) (b message rest : Str) (c : PagedCache) (sends : List Sent)
      → take_message b ≡ some (message, rest)
      → (let (answer, c') = process_command (parse_message message) client_id now c in
          let o = send_response sends answer in
          loop (suc fuel) b c sends ≡ answered rest c' o (loop fuel rest c' (sends_left o)))
  unfolding message_loop
  loop-some fuel b message rest c sends h =
      let (answer, c') = process_command (parse_message message) client_id now c in
      elim (Option-cases (send_response sends answer)) [
        | inl e ↦ rw (message_loop, h, e)
        | inr (s, e) ↦ rw (message_loop, h, e)
      ]

  -- Fuel for each byte is enough.
  loop_fuel :
      (f g : ℕ) (b : Str) (c : PagedCache) (sends : List Sent)
      → length b ≤ f
      → length b ≤ g
      → loop f b c sends ≡ loop g b c sends
  loop_fuel zero g b c sends hf hg =
      let n = no_message client_id now b hf in
      loop-none zero b c sends n ∙ sym (loop-none g b c sends n)
  loop_fuel (suc f) zero b c sends hf hg =
      let n = no_message client_id now b hg in
      loop-none (suc f) b c sends n ∙ sym (loop-none zero b c sends n)
  loop_fuel (suc f) (suc g) b c sends hf hg = elim (Option-cases (take_message b)) [
    | inl n ↦ loop-none (suc f) b c sends n ∙ sym (loop-none (suc g) b c sends n)
    | inr ((m, r), h) ↦
        let short = length-take_message b m r h in
        let (answer, c') = process_command (parse_message m) client_id now c in
        let o = send_response sends answer in
        loop-some f b m r c sends h
        ∙ ap (answered r c' o)
            (loop_fuel f g r c' (sends_left o) (omega (arith, short)) (omega (arith, short)))
        ∙ sym (loop-some g b m r c sends h)
  ]

  -- The loop on a buffer to which more bytes come.
  abbrev with_more : Str → Str → PagedCache → List Sent → Option Reading
  with_more t b c sends = loop (length (b ++ t)) (b ++ t) c sends

  module _ (t rest : Str) (c : PagedCache) (later later' : Option Reading)
      (same : forget later ≡ forget (go_on (with_more t) later')) where
    answered-sent :
        (done : Bool) (out : Str) (sends : List Sent)
        → (let o : Option Sending = some (record { done = done; out = out; sends = sends }) in
            forget (answered (rest ++ t) c o later)
            ≡ forget (go_on (with_more t) (answered rest c o later')))
    answered-sent false out sends = refl
    answered-sent true out sends =
        let e = sent_bytes fd out ∷ [] in
        forget-effects_first e later
        ∙ ap (effects_first e) same
        ∙ sym (forget-effects_first e (go_on (with_more t) later'))
        ∙ ap forget (sym (go_on-effects_first (with_more t) e later'))

    answered-go_on :
        (o : Option Sending)
        → forget (answered (rest ++ t) c o later)
          ≡ forget (go_on (with_more t) (answered rest c o later'))
    answered-go_on none = refl
    answered-go_on (some s) = answered-sent s.done s.out s.sends

  loop-append_none :
      (f g : ℕ) (b t : Str) (c : PagedCache) (sends : List Sent)
      → take_message b ≡ none
      → length (b ++ t) ≤ f
      → forget (loop f (b ++ t) c sends) ≡ forget (go_on (with_more t) (loop g b c sends))
  loop-append_none f g b t c sends n hf = ap forget (
      loop_fuel f (length (b ++ t)) (b ++ t) c sends hf (omega arith)
      ∙ sym (effects_first-nil (with_more t b c sends))
      ∙ ap (go_on (with_more t)) (sym (loop-none g b c sends n)))

  loop-append :
      (f g : ℕ) (b t : Str) (c : PagedCache) (sends : List Sent)
      → length (b ++ t) ≤ f
      → length b ≤ g
      → forget (loop f (b ++ t) c sends) ≡ forget (go_on (with_more t) (loop g b c sends))
  loop-append zero g b t c sends hf hg =
      loop-append_none zero g b t c sends
        (no_message client_id now b (omega (arith, hf, length-append b t))) hf
  loop-append (suc f) zero b t c sends hf hg =
      loop-append_none (suc f) zero b t c sends (no_message client_id now b hg) hf
  loop-append (suc f) (suc g) b t c sends hf hg = elim (Option-cases (take_message b)) [
    | inl n ↦ loop-append_none (suc f) (suc g) b t c sends n hf
    | inr ((m, r), h) ↦
        let short = length-take_message b m r h in
        let (answer, c') = process_command (parse_message m) client_id now c in
        let o = send_response sends answer in
        ap forget (loop-some f (b ++ t) m (r ++ t) c sends (take_message-append b t m r h))
        ∙ answered-go_on t r c' (loop f (r ++ t) c' (sends_left o)) (loop g r c' (sends_left o))
            (loop-append f g r t c' (sends_left o)
              (omega (arith, short, hf, length-append r t, length-append b t))
              (omega (arith, short)))
            o
        ∙ ap (λ x. forget (go_on (with_more t) x)) (sym (loop-some g b m r c sends h))
  ]

  -- The loop over the calls of `recv`, after a chunk.
  receive_loop-got :
      (chunk : Str) (received : List Received) (b : Str) (c : PagedCache) (sends : List Sent)
      → receive_loop fd client_id now (got chunk ∷ received) b c sends
        ≡ go_on (receive_loop fd client_id now received) (with_more (c_string chunk) b c sends)
  unfolding receive_loop
  receive_loop-got chunk received b c sends =
      elim (Option-cases (with_more (c_string chunk) b c sends)) [
        | inl e ↦ rw (receive_loop, e) refl
        | inr (l, e) ↦ elim (Bool-cases l.open_still) [
          | inl on ↦ rw (receive_loop, e, on) refl
          | inr off ↦ rw (receive_loop, e, off) refl
        ]
      ]

  pub receive_loop-append :
      (first second : Str) (received : List Received) (b : Str) (c : PagedCache) (sends : List Sent)
      → c_string first ≡ first
      → forget (receive_loop fd client_id now (got (first ++ second) ∷ received) b c sends)
        ≡ forget (receive_loop fd client_id now (got first ∷ got second ∷ received) b c sends)
  receive_loop-append first second received b c sends clean =
      let t = c_string second in
      let rest = receive_loop fd client_id now received in
      let start = b ++ first in
      let one = with_more first b c sends in
      ap forget (
        receive_loop-got (first ++ second) received b c sends
        ∙ ap (λ s. go_on rest (with_more s b c sends)) (c_string-append first second clean)
        ∙ ap (λ s. go_on rest (loop (length s) s c sends)) (sym (append_assoc b first t)))
      ∙ go_on-forget rest (with_more t start c sends)
      ∙ ap (λ o. forget (go_on rest o))
          (loop-append (length (start ++ t)) (length start) start t c sends (omega arith)
            (omega arith))
      ∙ sym (go_on-forget rest (go_on (with_more t) one))
      ∙ ap forget (
          sym (go_on-go_on (with_more t) rest one)
          ∙ ap (λ f. go_on f one)
              (λ i b c sends. sym (receive_loop-got second received b c sends) i)
          ∙ ap
              (λ s.
                go_on (receive_loop fd client_id now (got second ∷ received))
                  (with_more s b c sends))
              (sym clean)
          ∙ sym (receive_loop-got first (got second ∷ received) b c sends))
