-- ===== src/Server/Served.antt =====
-- What the commands of one client do to the cache, from a command to a run of `handle_client_data`.
use os_lab.Base.{
  ℕ, zero, suc, some, none, Option, List, [], ◌∷◌, ◌++◌, Str, length, Bool-cases, Option-cases, inl,
  inr, subst,
}
use os_lab.PagedCache.{PagedCache}
use os_lab.PagedCache.Valid.{IsValid}
use os_lab.PagedCache.Steps.{Call, add, update, get, delete, apply, apply-Kept}
use os_lab.PagedCache.Foreign.{NoForgery, apply-NoForgery}
use os_lab.Protocol.{CommandType, Command, parse_message}
use os_lab.Server.{process_command, perform}
use os_lab.Server.Connections.{Effect, sent_bytes, Sent, send_response}
use os_lab.Server.Receive.{take_message, c_string}
use os_lab.Server.Data.{
  Received, got, ended, again, broken, Reading, effects_first, message_loop, receive_loop,
}

-- After commands of `client` the cache is valid, and what it has of other clients it had before.
pub record Served (n : ℕ) (client : Str) (c c' : PagedCache) : Type 0 where
  pub valid : IsValid n c'
  pub foreign : (k : Str) → NoForgery client k c.cache_map c'.cache_map

pub Served-refl : (n : ℕ) (client : Str) (c : PagedCache) → IsValid n c → Served n client c c
Served-refl n client c v = record { valid = v; foreign = λ k e h _. h }

Served-trans :
    (n : ℕ) (client : Str) (c c' c'' : PagedCache)
    → Served n client c c'
    → Served n client c' c''
    → Served n client c c''
Served-trans n client c c' c'' s t = record {
  valid = t.valid;
  foreign = λ k e h other. s.foreign k e (t.foreign k e h other) other;
}

apply-Served :
    (n : ℕ) (client : Str) (now : ℕ) (call : Call) (c : PagedCache)
    → IsValid n c
    → Served n client c (apply client now call c).1
apply-Served n client now call c v = record {
  valid = (apply-Kept n client now c v call).valid;
  foreign = apply-NoForgery n client now c v call;
}

perform-Served :
    (n : ℕ) (type : CommandType) (key value client : Str) (now : ℕ) (c : PagedCache)
    → IsValid n c
    → Served n client c (perform type key value client now c).1
unfolding perform apply
perform-Served n CommandType.add key value client now c v =
    apply-Served n client now (add key value) c v
perform-Served n CommandType.update key value client now c v =
    apply-Served n client now (update key value) c v
perform-Served n CommandType.get key value client now c v = apply-Served n client now (get key) c v
perform-Served n CommandType.delete key value client now c v =
    apply-Served n client now (delete key) c v
perform-Served n CommandType.invalid key value client now c v = Served-refl n client c v

pub process_command-Served :
    (n : ℕ) (cmd : Command) (client : Str) (now : ℕ) (c : PagedCache)
    → IsValid n c
    → Served n client c (process_command cmd client now c).1
unfolding process_command
process_command-Served n cmd client now c v =
    perform-Served n cmd.type cmd.key cmd.value client now c v

module _ (n : ℕ) (client : Str) where
  abbrev pub Leaves : PagedCache → Option Reading → Type 0
  Leaves c none = Unit
  Leaves c (some r) = Served n client c r.cache

  Leaves-after :
      (c c' : PagedCache) (o : Option Reading) → Served n client c c' → Leaves c' o → Leaves c o
  Leaves-after c c' none s l = tt
  Leaves-after c c' (some r) s l = Served-trans n client c c' r.cache s l

  Leaves-effects_first :
      (c : PagedCache) (effects : List Effect) (o : Option Reading)
      → Leaves c o
      → Leaves c (effects_first effects o)
  Leaves-effects_first c effects none l = tt
  Leaves-effects_first c effects (some r) l = l

module _ (n fd : ℕ) (client : Str) (now : ℕ) where
  message_loop-Served :
      (fuel : ℕ) (buffer : Str) (c : PagedCache) (sends : List Sent)
      → IsValid n c
      → Leaves n client c (message_loop fd client now fuel buffer c sends)
  unfolding message_loop
  message_loop-Served zero buffer c sends v = Served-refl n client c v
  message_loop-Served (suc fuel) buffer c sends v = elim (Option-cases (take_message buffer)) [
    | inl h ↦ rw (message_loop, h) (Served-refl n client c v)
    | inr ((message, rest), h) ↦
        let r = process_command (parse_message message) client now c in
        let s = process_command-Served n (parse_message message) client now c v in
        elim (Option-cases (send_response sends r.0)) [
          | inl blocked ↦ rw (message_loop, h, blocked) tt
          | inr (sent, e) ↦ elim (Bool-cases sent.done) [
            | inr failed ↦ rw (message_loop, h, e, failed) s
            | inl done ↦
                rw (message_loop, h, e, done)
                  (Leaves-effects_first n client c (sent_bytes fd sent.out ∷ [])
                    (message_loop fd client now fuel rest r.1 sent.sends)
                    (Leaves-after n client c r.1
                      (message_loop fd client now fuel rest r.1 sent.sends) s
                      (message_loop-Served fuel rest r.1 sent.sends s.valid)))
          ]
        ]
  ]

  pub receive_loop-Served :
      (received : List Received) (buffer : Str) (c : PagedCache) (sends : List Sent)
      → IsValid n c
      → Leaves n client c (receive_loop fd client now received buffer c sends)
  unfolding receive_loop
  receive_loop-Served [] buffer c sends v = Served-refl n client c v
  receive_loop-Served (again ∷ received) buffer c sends v = Served-refl n client c v
  receive_loop-Served (ended ∷ received) buffer c sends v = Served-refl n client c v
  receive_loop-Served (broken ∷ received) buffer c sends v = Served-refl n client c v
  receive_loop-Served (got chunk ∷ received) buffer c sends v =
      let all = buffer ++ c_string chunk in
      let o = message_loop fd client now (length all) all c sends in
      let l = message_loop-Served (length all) all c sends v in
      elim (Option-cases o) [
        | inl blocked ↦ rw (receive_loop, blocked) tt
        | inr (r, e) ↦
            let s : Served n client c r.cache = subst (Leaves n client c) e l in
            elim (Bool-cases r.open_still) [
              | inr closed ↦ rw (receive_loop, e, closed) s
              | inl still ↦
                  rw (receive_loop, e, still)
                    (Leaves-effects_first n client c r.effects
                      (receive_loop fd client now received r.buffer r.cache r.sends)
                      (Leaves-after n client c r.cache
                        (receive_loop fd client now received r.buffer r.cache r.sends) s
                        (receive_loop-Served received r.buffer r.cache r.sends s.valid)))
            ]
      ]
