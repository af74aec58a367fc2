-- ===== src/Server/Wire.antt =====
-- The messages of clients on the wire: what server.cpp finds in their bytes, and how it answers.
use mathlib.Core.List.{append_assoc}
use os_lab.Base.{
  ℕ, ◌≡◌, ◌≢◌, refl, sym, ap, ◌∙◌, false, Option, none, some, [], ◌∷◌, ◌++◌, Str, ◌==◌, arith,
  Bool-cases, inl, inr,
}
use os_lab.Texts.{strip}
use os_lab.Protocol.{bytes, Command, wants_value}
use os_lab.Protocol.Printed.{method_of, field_line, message_of, IsLine, append-IsLine}
use os_lab.Protocol.RoundTrip.{method_of-IsPlain, IsPrintable}
use os_lab.Server.Receive.{ending, onto_message, take_message}

abbrev onto_text : Str → Option (Str × Str) → Option (Str × Str)
onto_text [] o = o
onto_text (c ∷ s) o = onto_message c (onto_text s o)

-- No message ends where no line does.
take_message-step :
    (d e : ℕ) (t : Str) → e ≢ 10 → take_message (d ∷ e ∷ t) ≡ onto_message d (take_message (e ∷ t))
unfolding take_message strip
take_message-step d e t ne = elim (Bool-cases (13 == d)) [
  | inl same ↦ let other : (10 == e) ≡ false = ground arith in rw (take_message, strip, same, other)
  | inr differs ↦ rw (take_message, strip, differs)
]

take_message-other :
    (d : ℕ) (t : Str)
    → strip ending (d ∷ t) ≡ none
    → take_message (d ∷ t) ≡ onto_message d (take_message t)
unfolding take_message
take_message-other d t h =
    ap
      (λ (o : Option Str). elim o [
        | some rest ↦ some (ending, rest)
        | none ↦ onto_message d (take_message t)
      ])
      h

no_ending : (c : ℕ) (rest : Str) → c ≢ 13 → strip ending (13 ∷ 10 ∷ c ∷ rest) ≡ none
unfolding strip
no_ending c rest ne = let other : (13 == c) ≡ false = ground arith in rw other

-- A line in which no message ends.
take_message-line :
    (s rest : Str) (c : ℕ)
    → IsLine s
    → c ≢ 13
    → take_message (s ++ 13 ∷ 10 ∷ c ∷ rest)
      ≡ onto_text (s ++ 13 ∷ 10 ∷ []) (take_message (c ∷ rest))
unfolding take_message strip
take_message-line [] rest c h ne = take_message-other 13 (10 ∷ c ∷ rest) (no_ending c rest ne)
take_message-line (d ∷ []) rest c h ne =
    take_message-step d 13 (10 ∷ c ∷ rest) (omega arith)
    ∙ ap (onto_message d) (take_message-line [] rest c tt ne)
take_message-line (d ∷ e ∷ s) rest c h ne =
    take_message-step d e (s ++ 13 ∷ 10 ∷ c ∷ rest) h.1.0
    ∙ ap (onto_message d) (take_message-line (e ∷ s) rest c h.1 ne)

-- The last line, with the empty line behind it.
take_message-last :
    (s rest : Str)
    → IsLine s
    → take_message (s ++ 13 ∷ 10 ∷ 13 ∷ 10 ∷ rest) ≡ some (s ++ 13 ∷ 10 ∷ 13 ∷ 10 ∷ [], rest)
unfolding take_message strip
take_message-last [] rest h = refl
take_message-last (d ∷ []) rest h =
    take_message-step d 13 (10 ∷ 13 ∷ 10 ∷ rest) (omega arith)
    ∙ ap (onto_message d) (take_message-last [] rest tt)
take_message-last (d ∷ e ∷ s) rest h =
    take_message-step d e (s ++ 13 ∷ 10 ∷ 13 ∷ 10 ∷ rest) h.1.0
    ∙ ap (onto_message d) (take_message-last (e ∷ s) rest h.1)

field_line-append :
    (name value rest more : Str)
    → field_line name value rest ++ more ≡ field_line name value (rest ++ more)
field_line-append name value rest more = simp append_assoc

field_line-text :
    (name value rest : Str) → field_line name value rest ≡ (name ++ 58 ∷ value) ++ 13 ∷ 10 ∷ rest
field_line-text name value rest = simp append_assoc

onto_text-some : (s m rest : Str) → onto_text s (some (m, rest)) ≡ some (s ++ m, rest)
onto_text-some [] m rest = refl
onto_text-some (c ∷ s) m rest = ap (onto_message c) (onto_text-some s m rest)

-- A line follows that is not empty.
abbrev StartsLine : Str → Type 0
StartsLine [] = ⊥
StartsLine (c ∷ s) = c ≢ 13

-- A field, when the message behind it is known.
field_line-taken :
    (name value rest message left : Str)
    → IsLine name
    → IsLine value
    → StartsLine rest
    → take_message rest ≡ some (message, left)
    → take_message (field_line name value rest) ≡ some (field_line name value message, left)
field_line-taken name value [] message left n v starts h = elim starts [ ]
field_line-taken name value (c ∷ rest) message left n v starts h =
    let text = name ++ 58 ∷ value in
    ap take_message (field_line-text name value (c ∷ rest))
    ∙ take_message-line text rest c (append-IsLine name (58 ∷ value) n (omega arith, v)) starts
    ∙ ap (onto_text (text ++ 13 ∷ 10 ∷ [])) h
    ∙ onto_text-some (text ++ 13 ∷ 10 ∷ []) message left
    ∙ ap (λ t. some (t, left)) (simp append_assoc)

-- The last field of a message.
field_line-last :
    (name value rest : Str)
    → IsLine name
    → IsLine value
    → take_message (field_line name value (13 ∷ 10 ∷ rest))
      ≡ some (field_line name value (13 ∷ 10 ∷ []), rest)
field_line-last name value rest n v =
    let text = name ++ 58 ∷ value in
    ap take_message (field_line-text name value (13 ∷ 10 ∷ rest))
    ∙ take_message-last text rest (append-IsLine name (58 ∷ value) n (omega arith, v))
    ∙ ap (λ t. some (t, rest)) (sym (field_line-text name value (13 ∷ 10 ∷ [])))

-- The message of a command is the first that is found in a buffer that starts with it.
module _ (method key : Str) (m : IsLine method) (k : IsLine key) where
  behind_method :
      (tail message left : Str)
      → take_message (field_line (bytes "Key") key tail) ≡ some (message, left)
      → take_message (field_line (bytes "Method") method (field_line (bytes "Key") key tail))
        ≡ some (field_line (bytes "Method") method message, left)
  behind_method tail message left h =
      field_line-taken (bytes "Method") method (field_line (bytes "Key") key tail) message left
        (omega arith) m (omega arith) h

  taken_without :
      (rest : Str)
      → take_message
          (field_line (bytes "Method") method (field_line (bytes "Key") key (bytes "\r\n")) ++ rest)
        ≡ some
            (field_line (bytes "Method") method (field_line (bytes "Key") key (bytes "\r\n")), rest)
  taken_without rest =
      ap take_message (simp append_assoc)
      ∙ behind_method (13 ∷ 10 ∷ rest) (field_line (bytes "Key") key (bytes "\r\n")) rest
          (field_line-last (bytes "Key") key rest (omega arith) k)

  taken_with :
      (value rest : Str)
      → IsLine value
      → (let message =
            field_line
              (bytes "Method")
              method
              (field_line (bytes "Key") key (field_line (bytes "Value") value (bytes "\r\n"))) in
          take_message (message ++ rest) ≡ some (message, rest))
  taken_with value rest v =
      let tail = field_line (bytes "Value") value (13 ∷ 10 ∷ rest) in
      let message = field_line (bytes "Value") value (bytes "\r\n") in
      ap take_message (simp append_assoc)
      ∙ behind_method tail (field_line (bytes "Key") key message) rest (
          field_line-taken (bytes "Key") key tail message rest (omega arith) k (omega arith)
            (field_line-last (bytes "Value") value rest (omega arith) v))

pub take_message-message_of :
    (cmd : Command) (rest : Str)
    → IsPrintable cmd
    → take_message (message_of cmd ++ rest) ≡ some (message_of cmd, rest)
take_message-message_of cmd rest p =
    let m = (method_of-IsPlain cmd.type).line in
    elim (Bool-cases (wants_value cmd.type)) [
      | inl w ↦
          rw w (taken_with (method_of cmd.type) cmd.key m p.key.line cmd.value rest p.value.line)
      | inr w ↦ rw w (taken_without (method_of cmd.type) cmd.key m p.key.line rest)
    ]
