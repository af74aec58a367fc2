-- ===== src/BenchmarkServer/Benchmark/Tests.antt =====
-- A trace of one line, whose statistics are printed before they count it.
use os_lab.Base.{
  ℕ, ◌+◌, ◌≡◌, ◌≢◌, ◌<◌, refl, Option, some, [], ◌∷◌, Str, arith, ℕ_discrete, Str-discrete, length,
}
use os_lab.Protocol.{bytes}
use os_lab.TraceProcessor.{initialize, has_next, get_next, getline, split_line, parse_line}
use os_lab.BenchmarkCache.{create, reset_stats}
use os_lab.BenchmarkCache.Policies.{lru}
use os_lab.BenchmarkCache.Counters.{Tally}
use os_lab.BenchmarkServer.{Main, set_pc, Pc, Move, System, Step, start, process_request}
use os_lab.BenchmarkServer.Trace.{run_trace_benchmark, trace_requests, get_request}
use os_lab.BenchmarkServer.Counted.{in_flight}
use os_lab.BenchmarkServer.Benchmark.{
  printing, begin, first_phase, inside, add_next, no_more, seen_empty, Benchmark, begun, then_round,
}
use os_lab.BenchmarkServer.Benchmark.Report.{printing_lem}

abbrev trace : Option Str
trace = some (bytes "a\n")

one_request : run_trace_benchmark trace ≡ get_request (bytes "a") ∷ []
unfolding run_trace_benchmark initialize trace_requests has_next get_next getline split_line
    parse_line Str-discrete
one_request = refl

-- Four workers; the one that is told nothing has taken the request when the main thread looks.
abbrev at_print : System
unfolding begin start create reset_stats
at_print = record {
  mem = record (begin 2 lru).mem {
    added = get_request (bytes "a") ∷ [];
    taken = get_request (bytes "a") ∷ [];
  };
  pc =
      set_pc 0 (Pc.getting (get_request (bytes "a")))
        (set_pc 0 Pc.awake (set_pc 0 Pc.testing (set_pc 0 Pc.locking (λ i. Pc.checking))));
  main = Main.resting;
}

nobody : (i : ℕ) → i < 4 → ◌≢◌ {A = Pc} Pc.checking Pc.blocked
nobody i h b = cc

prints : Benchmark 4 2 lru trace printing at_print
unfolding begin start create reset_stats first_phase initialize at_print process_request
    Str-discrete ℕ_discrete run_trace_benchmark trace_requests has_next get_next getline split_line
    parse_line
prints =
    let added = then_round begun (add_next (get_request (bytes "a")) [] refl refl) in
    let pushed =
      then_round added (inside (Step.push (get_request (bytes "a")) refl refl) (λ e. cc)) in
    let told = then_round pushed (inside (Step.notify_nobody refl nobody) (λ e. refl)) in
    let entered =
      then_round told (inside (Step.worker 0 (omega arith) (Move.enter refl)) (λ e. refl)) in
    let locked =
      then_round entered (inside (Step.worker 0 (omega arith) (Move.lock refl)) (λ e. refl)) in
    let ready =
      then_round locked (inside (Step.worker 0 (omega arith) (Move.ready refl)) (λ e. refl)) in
    let taken = then_round ready (
      inside (Step.worker 0 (omega arith) (Move.take (get_request (bytes "a")) [] refl))
        (λ e. refl)) in
    then_round (then_round taken (no_more refl)) (seen_empty refl refl refl)

printing_lem_example :
    (at_print.mem.taken ≡ run_trace_benchmark trace)
    × (g : ℕ) × Tally g at_print.mem.cache
    × (g + in_flight 4 at_print.pc ≡ length (run_trace_benchmark trace))
printing_lem_example = printing_lem 4 2 lru trace at_print (omega arith) prints

-- The request is not counted.
not_counted : in_flight 4 at_print.pc ≡ 1
unfolding at_print ℕ_discrete
not_counted = refl
