-- ===== src/Server/Pipeline.antt =====
-- Commands that reach `handle_client_data` of server.cpp in one chunk, one behind the other.
use os_lab.Base.{ℕ, zero, suc, ◌≤◌, ◌≡◌, ap, ◌∙◌, none, List, [], ◌∷◌, ◌++◌, Str, arith, length}
use os_lab.PagedCache.{PagedCache}
use os_lab.Protocol.{Command}
use os_lab.Protocol.Printed.{message_of}
use os_lab.Protocol.RoundTrip.{IsPrintable, parse_message-message_of}
use os_lab.Server.{process_command}
use os_lab.Server.Receive.{take_message, c_string, Handled, answer_first, messages, receive}
use os_lab.Server.Chunks.{length-take_message, loop-none, loop-some}
use os_lab.Server.Wire.{take_message-message_of}

-- The messages of commands, with what is behind them.
abbrev pub texts : List Command → Str → Str
texts [] part = part
texts (cmd ∷ cmds) part = message_of cmd ++ texts cmds part

abbrev pub ArePrintable : List Command → Type 0
ArePrintable [] = Unit
ArePrintable (cmd ∷ cmds) = IsPrintable cmd × ArePrintable cmds

module _ (client_id : Str) (now : ℕ) where
  -- One command after the other, with the bytes that are left.
  abbrev pub answer_all : List Command → Str → PagedCache → Handled
  answer_all [] part c = record { answers = []; buffer = part; cache = c }
  answer_all (cmd ∷ cmds) part c =
      let (answer, c') = process_command cmd client_id now c in
      answer_first answer (answer_all cmds part c')

  messages-texts :
      (fuel : ℕ) (cmds : List Command) (part : Str) (c : PagedCache)
      → ArePrintable cmds
      → take_message part ≡ none
      → length (texts cmds part) ≤ fuel
      → messages client_id now fuel (texts cmds part) c ≡ answer_all cmds part c
  messages-texts fuel [] part c p h f = loop-none client_id now fuel part c h
  messages-texts zero (cmd ∷ cmds) part c p h f =
      let taken = take_message-message_of cmd (texts cmds part) p.0 in
      absurd (
        omega (
          arith,
          length-take_message (texts (cmd ∷ cmds) part) (message_of cmd) (texts cmds part) taken,
        ))
  messages-texts (suc fuel) (cmd ∷ cmds) part c p h f =
      let rest = texts cmds part in
      let taken = take_message-message_of cmd rest p.0 in
      let short = length-take_message (texts (cmd ∷ cmds) part) (message_of cmd) rest taken in
      let (answer, c') = process_command cmd client_id now c in
      loop-some client_id now fuel (texts (cmd ∷ cmds) part) (message_of cmd) rest c taken
      ∙ ap
          (λ read.
            let (a, d) = process_command read client_id now c in
            answer_first a (messages client_id now fuel rest d))
          (parse_message-message_of cmd p.0)
      ∙ ap (answer_first answer) (messages-texts fuel cmds part c' p.1 h (omega (arith, short)))

  -- The messages of any commands, each of them one that can be printed in one line per field, come
  -- in one chunk with no zero byte, perhaps with an incomplete message behind them, while the
  -- buffer is empty: the commands are answered in their order, each as `process_command` does, and
  -- the incomplete message stays in the buffer.
  pub receive-texts :
      (cmds : List Command) (part : Str) (c : PagedCache)
      → ArePrintable cmds
      → take_message part ≡ none
      → c_string (texts cmds part) ≡ texts cmds part
      → receive client_id now (texts cmds part) [] c ≡ answer_all cmds part c
  unfolding receive
  receive-texts cmds part c p h clean =
      ap (λ s. messages client_id now (length s) s c) clean
      ∙ messages-texts (length (texts cmds part)) cmds part c p h (omega arith)
