-- ===== src/Server/Receive.antt =====
-- How `handle_client_data` of server.cpp takes a message from a client's buffer, and a reference
-- for the proofs, `receive`, which says what the messages of a client are answered where all
-- answers are sent. The handler itself, where a send may fail, is in Server/Data.
use os_lab.Base.{
  ℕ, zero, suc, some, none, Option, List, [], ◌∷◌, ◌++◌, Str, ◌==◌, if◌then◌else◌, length,
}
use os_lab.Texts.{strip}
use os_lab.PagedCache.{PagedCache}
use os_lab.Protocol.{parse_message}
use os_lab.Server.{process_command}

abbrev pub ending : Str
ending = 13 ∷ 10 ∷ 13 ∷ 10 ∷ []

abbrev pub onto_message : ℕ → Option (Str × Str) → Option (Str × Str)
onto_message c none = none
onto_message c (some (message, rest)) = some (c ∷ message, rest)

-- `find("\r\n\r\n")`, then the message with its end, and what is left of the buffer.
unfoldable pub take_message : Str → Option (Str × Str)
unfolding strip
take_message [] = none
take_message (c ∷ s) = elim (strip ending (c ∷ s)) [
  | some rest ↦ some (ending, rest)
  | none ↦ onto_message c (take_message s)
]

-- `std::string(buffer)` ends at the first zero byte.
unfoldable pub c_string : Str → Str
c_string [] = []
c_string (c ∷ s) = if c == 0 then [] else c ∷ c_string s

pub record Handled : Type 0 where
  pub answers : List Str
  pub buffer : Str
  pub cache : PagedCache

abbrev pub answer_first : Str → Handled → Handled
answer_first answer h = record h { answers = answer ∷ h.answers }

module _ (client_id : Str) (now : ℕ) where
  -- The loop has at most one round for each byte.
  unfoldable pub messages : ℕ → Str → PagedCache → Handled
  unfolding take_message process_command parse_message
  messages zero buffer c = record { answers = []; buffer = buffer; cache = c }
  messages (suc fuel) buffer c = elim (take_message buffer) [
    | none ↦ record { answers = []; buffer = buffer; cache = c }
    | some (message, rest) ↦
        let (answer, c') = process_command (parse_message message) client_id now c in
        answer_first answer (messages fuel rest c')
  ]

  -- What `recv` returned is added to the buffer.
  unfoldable pub receive : Str → Str → PagedCache → Handled
  unfolding messages c_string
  receive chunk buffer c = let all = buffer ++ c_string chunk in messages (length all) all c
