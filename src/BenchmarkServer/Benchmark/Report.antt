-- ===== src/BenchmarkServer/Benchmark/Report.antt =====
-- What the statistics that benchmark_server.cpp prints have counted.
use os_lab.Base.{
  ℕ, ◌+◌, ◌<◌, ◌≡◌, refl, sym, ap, ◌∙◌, subst, Option, none, some, List, [], ◌∷◌, ◌++◌, Str,
  Str-discrete, arith, length, map,
}
use mathlib.Core.List.{append-nil}
use os_lab.BenchmarkCache.{create, reset_stats}
use os_lab.BenchmarkCache.Policies.{EvictionPolicy}
use os_lab.BenchmarkCache.Counters.{Tally}
use os_lab.Protocol.{get_lines}
use os_lab.TraceProcessor.{initialize}
use os_lab.BenchmarkServer.{System, Step, start, Reach, here, next, wakeup}
use os_lab.BenchmarkServer.Reachable.{Reach-fifo}
use os_lab.BenchmarkServer.Trace.{
  run_trace_benchmark, before_empty, line_request, run_trace_benchmark_lem,
}
use os_lab.BenchmarkServer.Counted.{in_flight, gets_in, Reach-Counted}
use os_lab.BenchmarkServer.Benchmark.{
  Phase, printing, begin, Round, inside, woken, add_next, drop_next, no_more, seen_empty,
  print_statistics, call_stop, Benchmark, begun, then_round,
}
use os_lab.BenchmarkServer.Benchmark.Follows.{in_hand, Follows, round-Follows, begin-Follows}

begin-start :
    (capacity : ℕ) (policy : EvictionPolicy) → begin capacity policy ≡ start capacity policy
unfolding begin start reset_stats create
begin-start capacity policy = refl

module _ (n capacity : ℕ) (policy : EvictionPolicy) (file : Option Str) where
  round-Reach :
      {phase phase' : Phase} {s t : System}
      → Round n s phase phase' t
      → Reach n capacity policy s
      → Reach n capacity policy t
  round-Reach (inside st calm) r = next r st
  round-Reach (woken w) r = wakeup r w
  round-Reach (add_next q rs h run) r = next r (Step.add_request q h run)
  round-Reach (drop_next q rs h off) r = r
  round-Reach (no_more h) r = r
  round-Reach (seen_empty h free e) r = r
  round-Reach (print_statistics h) r = r
  round-Reach (call_stop h run) r = next r (Step.stop h run)

  Benchmark-Reach :
      {phase : Phase} {s : System}
      → Benchmark n capacity policy file phase s
      → Reach n capacity policy s
  Benchmark-Reach begun = subst (Reach n capacity policy) (sym (begin-start capacity policy)) here
  Benchmark-Reach (then_round b r) = round-Reach r (Benchmark-Reach b)

  Benchmark-Follows :
      {phase : Phase} {s : System}
      → Benchmark n capacity policy file phase s
      → Follows (run_trace_benchmark file) phase s
  Benchmark-Follows begun = begin-Follows capacity policy file
  Benchmark-Follows (then_round b r) =
      round-Follows n (run_trace_benchmark file) r (Benchmark-Follows b)

gets_in-requests :
    (lines : List Str) → gets_in (map line_request lines) ≡ length (map line_request lines)
unfolding Str-discrete
gets_in-requests [] = refl
gets_in-requests (line ∷ lines) = omega (arith, gets_in-requests lines)

gets_in-run :
    (file : Option Str) → gets_in (run_trace_benchmark file) ≡ length (run_trace_benchmark file)
unfolding run_trace_benchmark initialize
gets_in-run none = refl
gets_in-run (some contents) =
    let requests = run_trace_benchmark_lem contents in
    ap gets_in requests
    ∙ gets_in-requests (before_empty (get_lines contents))
    ∙ ap length (sym requests)

-- When the benchmark, with a positive number of workers and in any order of steps, prints its
-- statistics, the workers have taken all requests of the trace file from the queue, in their order.
-- The counters that it prints, which wrap, have counted all of them but those that a worker has
-- taken and not passed to `get` of the cache yet.
pub printing_lem :
    (n capacity : ℕ) (policy : EvictionPolicy) (file : Option Str) (s : System)
    → 0 < n
    → Benchmark n capacity policy file printing s
    → (s.mem.taken ≡ run_trace_benchmark file)
      × (g : ℕ) × Tally g s.mem.cache
      × (g + in_flight n s.pc ≡ length (run_trace_benchmark file))
printing_lem n capacity policy file s pos b =
    let r = Benchmark-Reach n capacity policy file b in
    let f = Benchmark-Follows n capacity policy file b in
    let (g, t, e) = Reach-Counted n capacity policy r in
    let added : s.mem.added ≡ run_trace_benchmark file =
      sym (append-nil s.mem.added)
      ∙ sym (append-nil (s.mem.added ++ []))
      ∙ ap (λ main. s.mem.added ++ in_hand main ++ []) (sym (f.rest refl))
      ∙ f.added in
    let all : s.mem.taken ≡ run_trace_benchmark file =
      sym (append-nil s.mem.taken)
      ∙ ap (λ queue. s.mem.taken ++ queue) (sym (f.quiet refl))
      ∙ sym (Reach-fifo n capacity policy s pos r).1
      ∙ added in
    (all, g, t, e ∙ ap gets_in all ∙ gets_in-run file)
