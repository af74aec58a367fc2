-- ===== src/Server/Log.antt =====
-- What a log of effects of server.cpp does to the descriptors that are open, and when the server
-- uses only those.
use os_lab.Base.{
  ℕ, zero, suc, ◌≡◌, refl, ap, subst, ◌∙◌, Option, none, some, List, [], ◌∷◌, ◌++◌, Str, ℕ_discrete,
  ite, Bool-cases, Option-cases, inl, inr, length,
}
use os_lab.PagedCache.{PagedCache}
use os_lab.Protocol.{parse_message}
use os_lab.Server.{process_command}
use os_lab.Server.Receive.{take_message, c_string}
use os_lab.Server.Connections.{
  Effect, opened_socket, closed_socket, sent_bytes, Sent, send_response,
}
use os_lab.Server.Data.{
  Received, got, ended, again, broken, Reading, effects_first, message_loop, receive_loop,
}

-- 1 for the descriptors that are open, else 0.
abbrev pub Descriptors : Type 0
Descriptors = ℕ → ℕ

abbrev pub set_open : ℕ → ℕ → Descriptors → Descriptors
set_open fd v fds j = ite (ℕ_discrete j fd) v (fds j)

unfoldable pub open_after : Descriptors → List Effect → Descriptors
open_after fds [] = fds
open_after fds (opened_socket fd ∷ log) = open_after (set_open fd 1 fds) log
open_after fds (closed_socket fd ∷ log) = open_after (set_open fd 0 fds) log
open_after fds (sent_bytes fd text ∷ log) = open_after fds log

-- The system gives only descriptors that are not open.
abbrev pub AreUnused : Descriptors → List Effect → Type 0
AreUnused fds [] = Unit
AreUnused fds (opened_socket fd ∷ log) = (fds fd ≡ 0) × AreUnused (set_open fd 1 fds) log
AreUnused fds (closed_socket fd ∷ log) = AreUnused (set_open fd 0 fds) log
AreUnused fds (sent_bytes fd text ∷ log) = AreUnused fds log

-- The server closes and writes to open descriptors only.
abbrev pub AreOpen : Descriptors → List Effect → Type 0
AreOpen fds [] = Unit
AreOpen fds (opened_socket fd ∷ log) = AreOpen (set_open fd 1 fds) log
AreOpen fds (closed_socket fd ∷ log) = (fds fd ≡ 1) × AreOpen (set_open fd 0 fds) log
AreOpen fds (sent_bytes fd text ∷ log) = (fds fd ≡ 1) × AreOpen fds log

pub open_after-append :
    (fds : Descriptors) (log more : List Effect)
    → open_after fds (log ++ more) ≡ open_after (open_after fds log) more
unfolding open_after
open_after-append fds [] more = refl
open_after-append fds (opened_socket fd ∷ log) more = open_after-append (set_open fd 1 fds) log more
open_after-append fds (closed_socket fd ∷ log) more = open_after-append (set_open fd 0 fds) log more
open_after-append fds (sent_bytes fd text ∷ log) more = open_after-append fds log more

pub append-AreUnused :
    (fds : Descriptors) (log more : List Effect)
    → AreUnused fds (log ++ more)
    → AreUnused fds log × AreUnused (open_after fds log) more
unfolding open_after
append-AreUnused fds [] more h = (tt, h)
append-AreUnused fds (opened_socket fd ∷ log) more h =
    let (a, b) = append-AreUnused (set_open fd 1 fds) log more h.1 in ((h.0, a), b)
append-AreUnused fds (closed_socket fd ∷ log) more h =
    append-AreUnused (set_open fd 0 fds) log more h
append-AreUnused fds (sent_bytes fd text ∷ log) more h = append-AreUnused fds log more h

pub append-AreOpen :
    (fds : Descriptors) (log more : List Effect)
    → AreOpen fds log
    → AreOpen (open_after fds log) more
    → AreOpen fds (log ++ more)
unfolding open_after
append-AreOpen fds [] more h k = k
append-AreOpen fds (opened_socket fd ∷ log) more h k =
    append-AreOpen (set_open fd 1 fds) log more h k
append-AreOpen fds (closed_socket fd ∷ log) more h k =
    (h.0, append-AreOpen (set_open fd 0 fds) log more h.1 k)
append-AreOpen fds (sent_bytes fd text ∷ log) more h k = (h.0, append-AreOpen fds log more h.1 k)

-- All effects are bytes that went out on the descriptor.
abbrev pub AreSent : ℕ → List Effect → Type 0
AreSent fd [] = Unit
AreSent fd (sent_bytes k text ∷ log) = (k ≡ fd) × AreSent fd log
AreSent fd (opened_socket k ∷ log) = ⊥
AreSent fd (closed_socket k ∷ log) = ⊥

pub AreSent-open_after :
    (fds : Descriptors) (fd : ℕ) (log : List Effect) → AreSent fd log → open_after fds log ≡ fds
unfolding open_after
AreSent-open_after fds fd [] h = refl
AreSent-open_after fds fd (sent_bytes k text ∷ log) h = AreSent-open_after fds fd log h.1
AreSent-open_after fds fd (opened_socket k ∷ log) h = elim h [ ]
AreSent-open_after fds fd (closed_socket k ∷ log) h = elim h [ ]

pub AreSent-AreOpen :
    (fds : Descriptors) (fd : ℕ) (log : List Effect) → fds fd ≡ 1 → AreSent fd log → AreOpen fds log
AreSent-AreOpen fds fd [] o h = tt
AreSent-AreOpen fds fd (sent_bytes k text ∷ log) o h =
    (ap fds h.0 ∙ o, AreSent-AreOpen fds fd log o h.1)
AreSent-AreOpen fds fd (opened_socket k ∷ log) o h = elim h [ ]
AreSent-AreOpen fds fd (closed_socket k ∷ log) o h = elim h [ ]

append-AreSent :
    (fd : ℕ) (log more : List Effect) → AreSent fd log → AreSent fd more → AreSent fd (log ++ more)
append-AreSent fd [] more h k = k
append-AreSent fd (sent_bytes j text ∷ log) more h k = (h.0, append-AreSent fd log more h.1 k)
append-AreSent fd (opened_socket j ∷ log) more h k = elim h [ ]
append-AreSent fd (closed_socket j ∷ log) more h k = elim h [ ]

-- The loops over a client's bytes only write to its descriptor.
abbrev pub Sends : ℕ → Option Reading → Type 0
Sends fd none = Unit
Sends fd (some r) = AreSent fd r.effects

Sends-effects_first :
    (fd : ℕ) (effects : List Effect) (o : Option Reading)
    → AreSent fd effects
    → Sends fd o
    → Sends fd (effects_first effects o)
Sends-effects_first fd effects none h k = tt
Sends-effects_first fd effects (some r) h k = append-AreSent fd effects r.effects h k

module _ (fd : ℕ) (client : Str) (now : ℕ) where
  message_loop-Sends :
      (fuel : ℕ) (buffer : Str) (c : PagedCache) (sends : List Sent)
      → Sends fd (message_loop fd client now fuel buffer c sends)
  unfolding message_loop
  message_loop-Sends zero buffer c sends = tt
  message_loop-Sends (suc fuel) buffer c sends = elim (Option-cases (take_message buffer)) [
    | inl h ↦ rw (message_loop, h) tt
    | inr ((message, rest), h) ↦
        let r = process_command (parse_message message) client now c in
        elim (Option-cases (send_response sends r.0)) [
          | inl blocked ↦ rw (message_loop, h, blocked) tt
          | inr (sent, e) ↦ elim (Bool-cases sent.done) [
            | inr failed ↦ rw (message_loop, h, e, failed) (refl, tt)
            | inl done ↦
                rw (message_loop, h, e, done)
                  (Sends-effects_first fd (sent_bytes fd sent.out ∷ [])
                    (message_loop fd client now fuel rest r.1 sent.sends) (refl, tt)
                    (message_loop-Sends fuel rest r.1 sent.sends))
          ]
        ]
  ]

  pub receive_loop-Sends :
      (received : List Received) (buffer : Str) (c : PagedCache) (sends : List Sent)
      → Sends fd (receive_loop fd client now received buffer c sends)
  unfolding receive_loop
  receive_loop-Sends [] buffer c sends = tt
  receive_loop-Sends (again ∷ received) buffer c sends = tt
  receive_loop-Sends (ended ∷ received) buffer c sends = tt
  receive_loop-Sends (broken ∷ received) buffer c sends = tt
  receive_loop-Sends (got chunk ∷ received) buffer c sends =
      let all = buffer ++ c_string chunk in
      elim (Option-cases (message_loop fd client now (length all) all c sends)) [
        | inl blocked ↦ rw (receive_loop, blocked) tt
        | inr (r, e) ↦
            let s : AreSent fd r.effects =
              subst (Sends fd) e (message_loop-Sends (length all) all c sends) in
            elim (Bool-cases r.open_still) [
              | inr closed ↦ rw (receive_loop, e, closed) s
              | inl still ↦
                  rw (receive_loop, e, still)
                    (Sends-effects_first fd r.effects
                      (receive_loop fd client now received r.buffer r.cache r.sends) s
                      (receive_loop-Sends received r.buffer r.cache r.sends))
            ]
      ]
