-- ===== src/TraceProcessor/Lines.antt =====
-- The lines that `get_next` of trace_processor.cpp reads, one after the other.
use os_lab.Base.{
  ℕ, suc, ◌<◌, ◌≡◌, ◌≢◌, refl, ap, ◌∙◌, Option, none, some, List, [], ◌∷◌, Str, ◌==◌, length, arith,
  Option-cases, Bool-cases, inl, inr,
}
use os_lab.Protocol.{bytes, onto_first, get_lines}
use os_lab.TraceProcessor.{
  some_word, next_word, split_word, skip_spaces, parse_line, onto_line, split_line,
}

abbrev pub lines_of : Str × Option Str → List Str
lines_of ([], none) = []
lines_of (c ∷ line, none) = (c ∷ line) ∷ []
lines_of (line, some rest) = line ∷ get_lines rest

onto_line-lines_of :
    (c : ℕ) (p : Str × Option Str) → onto_first c (lines_of p) ≡ lines_of (onto_line c p)
onto_line-lines_of c ([], none) = refl
onto_line-lines_of c (d ∷ line, none) = refl
onto_line-lines_of c ([], some rest) = refl
onto_line-lines_of c (d ∷ line, some rest) = refl

pub get_lines-split_line : (s : Str) → get_lines s ≡ lines_of (split_line s)
unfolding get_lines split_line
get_lines-split_line [] = refl
get_lines-split_line (c ∷ s) = elim (Bool-cases (c == 10)) [
  | inl end ↦ rw (end, get_lines, split_line)
  | inr more ↦
      rw (more, get_lines, split_line)
        (ap (onto_first c) (get_lines-split_line s) ∙ onto_line-lines_of c (split_line s))
]

-- What is left is shorter than what was there.
abbrev pub Shorter : ℕ → Str × Option Str → Type 0
Shorter n (line, none) = Unit
Shorter n (line, some rest) = length rest < n

onto_line-Shorter : (n c : ℕ) (p : Str × Option Str) → Shorter n p → Shorter (suc n) (onto_line c p)
onto_line-Shorter n c (line, none) h = tt
onto_line-Shorter n c (line, some rest) h = omega arith

pub split_line-Shorter : (s : Str) → Shorter (length s) (split_line s)
unfolding split_line
split_line-Shorter [] = tt
split_line-Shorter (c ∷ s) = elim (Bool-cases (c == 10)) [
  | inl end ↦ rw (end, split_line) (omega arith)
  | inr more ↦
      rw (more, split_line) (onto_line-Shorter (length s) c (split_line s) (split_line-Shorter s))
]

word_ne_nil : (s word rest : Str) → next_word s ≡ some (word, rest) → word ≢ []
unfolding next_word
word_ne_nil s word rest h e = some_word_ne_nil (split_word (skip_spaces s)) word rest h e
  where
    some_word_ne_nil :
        (p : Str × Str) (word rest : Str) → some_word p ≡ some (word, rest) → word ≢ []
    some_word_ne_nil ([], r) word rest h e = cc
    some_word_ne_nil (c ∷ w, r) word rest h e = ground arith

-- The key of a line that is not empty is not empty.
pub parse_line_key : (line : Str) → line ≢ [] → (parse_line line).key ≢ []
unfolding parse_line
parse_line_key line h = elim (Option-cases (next_word line)) [
  | inl e ↦ rw (e, parse_line) h
  | inr ((timestamp, s), e) ↦ elim (Option-cases (next_word s)) [
    | inl e₁ ↦ rw (e, e₁, parse_line) h
    | inr ((key, s'), e₁) ↦ elim (Option-cases (next_word s')) [
      | inl e₂ ↦ rw (e, e₁, e₂, parse_line) h
      | inr ((size_str, r), e₂) ↦ rw (e, e₁, e₂, parse_line) (word_ne_nil s key s' e₁)
    ]
  ]
]

-- All entries of lines are requests to get.
pub parse_line_operation : (line : Str) → (parse_line line).operation ≡ bytes "GET"
unfolding parse_line
parse_line_operation line = elim (Option-cases (next_word line)) [
  | inl e ↦ rw (e, parse_line)
  | inr ((timestamp, s), e) ↦ elim (Option-cases (next_word s)) [
    | inl e₁ ↦ rw (e, e₁, parse_line)
    | inr ((key, s'), e₁) ↦ elim (Option-cases (next_word s')) [
      | inl e₂ ↦ rw (e, e₁, e₂, parse_line)
      | inr (_, e₂) ↦ rw (e, e₁, e₂, parse_line)
    ]
  ]
]
