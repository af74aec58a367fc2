-- ===== src/TraceProcessor.antt =====
-- `TraceProcessor` of trace_processor.h and trace_processor.cpp: which file is read for a trace,
-- and the entries that its lines stand for. A file is the text that it holds.
pub mod Lines
pub mod Numbers
mod Tests
use os_lab.Base.{
  ℕ, zero, suc, ◌+◌, ◌-◌, ◌*◌, ◌%◌, ◌^◌, Bool, true, false, not, ◌&&◌, ◌||◌, Option, none, some,
  List, [], ◌∷◌, ◌++◌, Str, ltb, leb, ◌==◌, if◌then◌else◌, length,
}
use os_lab.Protocol.{bytes, onto_first}
use os_lab.Texts.{strip, take}

pub record TraceEntry : Type 0 where
  pub key : Str
  pub operation : Str
  pub size : ℕ

-- `std::isspace` in the "C" locale.
abbrev pub is_space : ℕ → Bool
is_space c = c == 32 || leb 9 c && leb c 13

abbrev pub is_digit : ℕ → Bool
is_digit c = leb 48 c && leb c 57

unfoldable pub skip_spaces : Str → Str
skip_spaces [] = []
skip_spaces (c ∷ s) = if is_space c then skip_spaces s else c ∷ s

abbrev pub onto_word : ℕ → Str × Str → Str × Str
onto_word c (word, rest) = (c ∷ word, rest)

unfoldable pub split_word : Str → Str × Str
split_word [] = ([], [])
split_word (c ∷ s) =
    let more = onto_word c (split_word s) in if is_space c then ([], c ∷ s) else more

abbrev pub some_word : Str × Str → Option (Str × Str)
some_word ([], rest) = none
some_word (c ∷ word, rest) = some (c ∷ word, rest)

-- `iss >> word`, which fails where there is no word.
unfoldable pub next_word : Str → Option (Str × Str)
unfolding skip_spaces split_word
next_word s = some_word (split_word (skip_spaces s))

-- The number of the digits at the head of a text, behind `n`.
unfoldable pub read_digits : ℕ → Str → ℕ
read_digits n [] = n
read_digits n (c ∷ s) =
    let more = read_digits (n * 10 + (c - 48)) s in if is_digit c then more else n

abbrev pub in_range : ℕ → Option ℕ
in_range n = if ltb n (2 ^ 64) then some n else none

-- `std::stoull` behind the sign; `none` is its exception.
unfoldable pub unsigned : Str → Option ℕ
unfolding read_digits
unsigned [] = none
unsigned (c ∷ s) = if is_digit c then in_range (read_digits 0 (c ∷ s)) else none

-- A number with a minus wraps around.
abbrev pub negated : Option ℕ → Option ℕ
negated none = none
negated (some n) = some ((2 ^ 64 - n) % 2 ^ 64)

unfoldable pub signed : Str → Option ℕ
unfolding unsigned
signed [] = none
signed (c ∷ s) =
    if c == 45 then negated (unsigned s) else if c == 43 then unsigned s else unsigned (c ∷ s)

unfoldable pub stoull : Str → Option ℕ
unfolding skip_spaces signed
stoull s = signed (skip_spaces s)

-- The `try` around `stoull`.
abbrev pub size_of : Option ℕ → ℕ
size_of none = 1024
size_of (some n) = n

-- What `get_next` makes of a line.
unfoldable pub parse_line : Str → TraceEntry
unfolding next_word stoull
parse_line line =
    let simple : TraceEntry = record { key = line; operation = bytes "GET"; size = 1024 } in
    elim (next_word line) [
      | none ↦ simple
      | some (timestamp, s) ↦ elim (next_word s) [
        | none ↦ simple
        | some (key, s') ↦ elim (next_word s') [
          | none ↦ simple
          | some (size_str, _) ↦ record {
            key = key;
            operation = bytes "GET";
            size = size_of (stoull size_str);
          }
        ]
      ]
    ]

-- An open `std::ifstream`: what the file holds, what is left of it, and the two flags.
pub record Stream : Type 0 where
  pub contents : Str
  pub rest : Str
  pub eof : Bool
  pub fail : Bool

-- `initialize`, for what the file holds if it can be opened.
unfoldable pub initialize : Option Str → Option Stream
initialize none = none
initialize (some contents) =
    some (record { contents = contents; rest = contents; eof = false; fail = false })

unfoldable pub has_next : Stream → Bool
has_next s = not s.eof && not s.fail

-- The text up to the end of line, and what is behind it; `none` is the end of the file.
abbrev pub onto_line : ℕ → Str × Option Str → Str × Option Str
onto_line c (line, rest) = (c ∷ line, rest)

unfoldable pub split_line : Str → Str × Option Str
split_line [] = ([], none)
split_line (c ∷ s) = let more = onto_line c (split_line s) in if c == 10 then ([], some s) else more

abbrev pub line_read : Stream → Str × Option Str → Option Str × Stream
line_read s (line, some rest) = (some line, record s { rest = rest })
line_read s ([], none) = (none, record s { rest = []; eof = true; fail = true })
line_read s (c ∷ line, none) = (some (c ∷ line), record s { rest = []; eof = true })

-- `std::getline`, which sets `fail` where it reads nothing.
unfoldable pub getline : Stream → Option Str × Stream
unfolding split_line has_next
getline s = if has_next s then line_read s (split_line s.rest) else (none, record s { fail = true })

abbrev pub entry_of : Option Str × Stream → TraceEntry × Stream
entry_of (none, s) = (record { key = []; operation = bytes "EOF"; size = 0 }, s)
entry_of (some line, s) = (parse_line line, s)

unfoldable pub get_next : Stream → TraceEntry × Stream
unfolding getline
get_next s = entry_of (getline s)

-- `reset` of an open file.
unfoldable pub reset : Stream → Stream
reset s = record s { rest = s.contents; eof = false; fail = false }

-- `url.find(prefix) == 0`
abbrev pub starts_with : Str → Str → Bool
unfolding strip
starts_with prefix s = elim (strip prefix s) [ none ↦ false | some _ ↦ true ]

-- `filename.find(part) != npos`
unfoldable pub contains : Str → Str → Bool
unfolding strip
contains part [] = starts_with part []
contains part (c ∷ s) = starts_with part (c ∷ s) || contains part s

-- What is behind the last slash, if there is one.
unfoldable pub behind_slash : Str → Option Str
behind_slash [] = none
behind_slash (c ∷ s) = elim (behind_slash s) [
  | some name ↦ some name
  | none ↦ if c == 47 then some s else none
]

unfoldable pub get_filename_from_url : Str → Str
unfolding behind_slash
get_filename_from_url url = elim (behind_slash url) [ some name ↦ name | none ↦ url ]

-- `file_exists`, `download_trace_file` and `extract_gz_file` ask the system and run other programs.
module _ (file_exists : Str → Bool) (download_trace_file extract_gz_file : Str → Str → Bool) where
  -- The path without its last three characters, and the extraction into it.
  unfoldable pub extracted : Str → Str
  unfolding take
  extracted path =
      let extracted_path = take (length path - 3) path in
      if file_exists extracted_path || extract_gz_file path extracted_path
      then extracted_path
      else path

  -- `trace_file_path` after the constructor.
  unfoldable pub trace_file_path : Str → Str
  unfolding strip contains get_filename_from_url extracted
  trace_file_path trace_url = elim (strip (bytes "file://") trace_url) [
    | some path ↦ path
    | none ↦
        if starts_with (bytes "http://") trace_url || starts_with (bytes "https://") trace_url
        then (let filename = get_filename_from_url trace_url in
            let path = bytes "./" ++ filename in
            if not (file_exists path) && not (download_trace_file trace_url path)
            then path
            else if contains (bytes ".gz") filename
            then extracted path
            else path)
        else trace_url
  ]
