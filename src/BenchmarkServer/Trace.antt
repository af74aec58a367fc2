-- ===== src/BenchmarkServer/Trace.antt =====
-- The loop of `run_trace_benchmark` of benchmark_server.cpp over a trace file, while the server
-- runs: the requests that it adds, for what the file holds.
use os_lab.Base.{
  ℕ, zero, suc, ◌<◌, ◌≡◌, ◌≢◌, refl, sym, ap, ◌∙◌, Bool, true, false, ◌||◌, Option, none, some,
  List, [], ◌∷◌, Str, Str-discrete, if◌then◌else◌, length, arith, map, ite,
}
use os_lab.Texts.{is_empty}
use os_lab.Protocol.{bytes, get_lines}
use os_lab.TraceProcessor.{
  TraceEntry, parse_line, Stream, initialize, has_next, split_line, line_read, get_next, entry_of,
}
use os_lab.TraceProcessor.Lines.{
  lines_of, get_lines-split_line, split_line-Shorter, Shorter, parse_line_key, parse_line_operation,
}
use os_lab.BenchmarkServer.{BenchmarkRequest}

-- `entry.key.empty() || entry.operation == "EOF"`
abbrev pub is_last : TraceEntry → Bool
is_last e = is_empty e.key || ite (Str-discrete e.operation (bytes "EOF")) true false

abbrev pub get_request : Str → BenchmarkRequest
get_request key = record { key = key; operation = bytes "GET"; client_id = bytes "benchmark" }

-- A round with the entry that was read, and what follows it.
abbrev pub trace_round :
    (Stream → List BenchmarkRequest) → TraceEntry × Stream → List BenchmarkRequest
trace_round rest (entry, s) = elim (is_last entry) [
  | true ↦ []
  | false ↦ get_request entry.key ∷ rest s
]

-- The loop takes at most a round for each byte, and one more.
unfoldable pub trace_requests : ℕ → Stream → List BenchmarkRequest
unfolding has_next get_next
trace_requests zero s = []
trace_requests (suc fuel) s = elim (has_next s) [
  | false ↦ []
  | true ↦ trace_round (trace_requests fuel) (get_next s)
]

-- `run_trace_benchmark` on a file, if it can be opened.
unfoldable pub run_trace_benchmark : Option Str → List BenchmarkRequest
unfolding initialize trace_requests
run_trace_benchmark file = elim (initialize file) [
  | none ↦ []
  | some s ↦ trace_requests (suc (length s.rest)) s
]

-- The lines before the first that is empty.
abbrev pub before_empty : List Str → List Str
before_empty [] = []
before_empty (line ∷ lines) = if is_empty line then [] else line ∷ before_empty lines

abbrev pub line_request : Str → BenchmarkRequest
line_request line = get_request (parse_line line).key

abbrev pub at : Str → Str → Stream
at contents rest = record { contents = contents; rest = rest; eof = false; fail = false }

is_empty-false : (s : Str) → s ≢ [] → is_empty s ≡ false
is_empty-false [] h = absurd (h refl)
is_empty-false (c ∷ s) h = refl

parse_line_not_last : (line : Str) → line ≢ [] → is_last (parse_line line) ≡ false
unfolding Str-discrete
parse_line_not_last line h =
    rw (is_empty-false (parse_line line).key (parse_line_key line h), parse_line_operation line)

trace_requests-eof : (fuel : ℕ) (s : Stream) → s.eof ≡ true → trace_requests fuel s ≡ []
unfolding trace_requests
trace_requests-eof zero s h = refl
trace_requests-eof (suc fuel) s h = rw (trace_requests, has_next, h)

module _ (fuel : ℕ) (contents rest : Str)
    (later : (r : Str)
      → length r < fuel
      → trace_requests fuel (at contents r) ≡ map line_request (before_empty (get_lines r))) where
  trace_round_line :
      (line : Str) (s : Stream)
      → line ≢ []
      → trace_round (trace_requests fuel) (parse_line line, s)
        ≡ line_request line ∷ trace_requests fuel s
  trace_round_line line s h = rw (trace_round, parse_line_not_last line h)

  trace_round_lem :
      (p : Str × Option Str)
      → Shorter (length rest) p
      → length rest < suc fuel
      → trace_round (trace_requests fuel) (entry_of (line_read (at contents rest) p))
        ≡ map line_request (before_empty (lines_of p))
  unfolding parse_line
  trace_round_lem ([], none) short h = refl
  trace_round_lem (c ∷ line, none) short h =
      trace_round_line (c ∷ line) (record (at contents rest) { rest = []; eof = true }) (λ e. cc)
      ∙ ap (λ l. line_request (c ∷ line) ∷ l)
          (trace_requests-eof fuel (record (at contents rest) { rest = []; eof = true }) refl)
  trace_round_lem ([], some r) short h = refl
  trace_round_lem (c ∷ line, some r) short h =
      trace_round_line (c ∷ line) (at contents r) (λ e. cc)
      ∙ ap (λ l. line_request (c ∷ line) ∷ l) (later r (omega arith))

trace_requests_lem :
    (fuel : ℕ) (contents rest : Str)
    → length rest < fuel
    → trace_requests fuel (at contents rest) ≡ map line_request (before_empty (get_lines rest))
unfolding trace_requests
trace_requests_lem zero contents rest h = absurd (omega arith)
trace_requests_lem (suc fuel) contents rest h =
    trace_round_lem fuel contents rest (λ r l. trace_requests_lem fuel contents r l)
      (split_line rest) (split_line-Shorter rest) h
    ∙ ap (λ l. map line_request (before_empty l)) (sym (get_lines-split_line rest))

-- For a trace file that can be opened, `run_trace_benchmark` adds one request for each of the lines
-- before the first empty one, in their order: a request to get the key that `get_next` finds in it.
pub run_trace_benchmark_lem :
    (contents : Str)
    → run_trace_benchmark (some contents) ≡ map line_request (before_empty (get_lines contents))
unfolding run_trace_benchmark
run_trace_benchmark_lem contents =
    trace_requests_lem (suc (length contents)) contents contents (omega arith)
