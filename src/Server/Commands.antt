-- ===== src/Server/Commands.antt =====
-- What a client sees of its commands: the texts that answer them.
use os_lab.Base.{ℕ, ◌≡◌, refl, ap, [], ◌∷◌, Str, arith}
use os_lab.PagedCache.{
  OperationResult, PagedCache, success, key_exists, key_not_found, no_space, client_mismatch,
  add_key,
}
use os_lab.PagedCache.Valid.{IsValid}
use os_lab.PagedCache.RoundTrip.{get_key-add_key}
use os_lab.Protocol.{CommandType, format_response}
use os_lab.Protocol.Response.{ok_added, ok_value}
use os_lab.Server.{answer_add, answer_get, process_command, perform}

first_byte : Str → ℕ
first_byte [] = 0
first_byte (c ∷ s) = c

-- Only a success is answered by the text for an added key.
answer_add_success : (r : OperationResult) → answer_add r ≡ format_response ok_added → r ≡ success
unfolding answer_add format_response first_byte
answer_add_success success h = refl
answer_add_success key_exists h = absurd (omega (arith, ap first_byte h))
answer_add_success key_not_found h = absurd (omega (arith, ap first_byte h))
answer_add_success no_space h = absurd (omega (arith, ap first_byte h))
answer_add_success client_mismatch h = absurd (omega (arith, ap first_byte h))

-- In a valid cache, a client whose ADD was answered with the text for an added key is answered OK
-- with the same value when it asks for the key next.
pub process_command-added :
    (n : ℕ) (key value client_id : Str) (now later : ℕ) (c : PagedCache)
    → IsValid n c
    → (process_command
        (record { type = CommandType.add; key = key; value = value })
        client_id
        now
        c).0
      ≡ format_response ok_added
    → (process_command
        (record { type = CommandType.get; key = key; value = [] })
        client_id
        later
        (process_command
          (record { type = CommandType.add; key = key; value = value })
          client_id
          now
          c).1).0
      ≡ format_response (ok_value value)
unfolding process_command perform answer_get
process_command-added n key value client_id now later c v h =
    let done = answer_add_success (add_key key value client_id now c).0 h in
    ap (λ r. answer_get r.0 r.1) (get_key-add_key n key value client_id now later c v done)
