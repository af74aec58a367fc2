-- ===== src/CacheBenchmark/Finished.antt =====
-- A run of `run_single_benchmark` of cache_benchmark.cpp on a trace of one line: its threads come
-- to their ends, and `stop` returns.
use os_lab.Base.{
  ℕ, ◌≡◌, ◌≢◌, ◌<◌, refl, Bool, Option, none, some, [], ◌∷◌, Str, arith, ℕ_discrete, Str-discrete,
  ◌++◌,
}
use os_lab.Dict.{find}
use os_lab.Protocol.{bytes}
use os_lab.TraceProcessor.{initialize, has_next, get_next, getline, split_line, parse_line}
use os_lab.BenchmarkCache.{create, reset_stats, get, put}
use os_lab.BenchmarkCache.Serve.{after}
use os_lab.BenchmarkCache.Policies.{BenchmarkCache, EvictionPolicy, lru, fifo, sieve, clock}
use os_lab.BenchmarkServer.{
  BenchmarkRequest, Pc, Move, Step, System, start, process_request, dummy_value, stopped,
}
use os_lab.BenchmarkServer.Trace.{run_trace_benchmark, trace_requests, get_request}
use os_lab.BenchmarkServer.Benchmark.{
  printed, begin, first_phase, inside, add_next, no_more, seen_empty, print_statistics, call_stop,
  Benchmark, begun, then_round, Course, completed, thrown,
}

abbrev pub line : Str
line = bytes "a" ++ 10 ∷ []

abbrev request_a : BenchmarkRequest
request_a = get_request (bytes "a")

nobody : (i : ℕ) → i < 4 → ◌≢◌ {A = Pc} Pc.checking Pc.blocked
nobody i h b = cc

-- What the worker puts.
abbrev pub asked : ℕ → BenchmarkCache
unfolding get create reset_stats
asked capacity = after (get (bytes "a") [] 0 (reset_stats (create capacity lru)))

module _ (capacity : ℕ) (ok : Bool) (c : BenchmarkCache)
    (stored : put (bytes "a") (dummy_value (bytes "a")) 0 (asked capacity) ≡ some (ok, c)) where
  pub ends : (s : System) × Benchmark 4 capacity lru (some line) printed s × (s.main ≡ stopped)
  unfolding begin start create reset_stats first_phase initialize process_request Str-discrete
      ℕ_discrete run_trace_benchmark trace_requests has_next get_next getline split_line parse_line
      get asked find
  ends =
      let added = then_round begun (add_next request_a [] refl refl) in
      let pushed = then_round added (inside (Step.push request_a refl refl) (λ e. cc)) in
      let told = then_round pushed (inside (Step.notify_nobody refl nobody) (λ e. refl)) in
      let entered =
        then_round told (inside (Step.worker 0 (omega arith) (Move.enter refl)) (λ e. refl)) in
      let locked =
        then_round entered (inside (Step.worker 0 (omega arith) (Move.lock refl)) (λ e. refl)) in
      let ready =
        then_round locked (inside (Step.worker 0 (omega arith) (Move.ready refl)) (λ e. refl)) in
      let taken =
        then_round ready
          (inside (Step.worker 0 (omega arith) (Move.take request_a [] refl)) (λ e. refl)) in
      let seen = then_round (then_round taken (no_more refl)) (seen_empty refl refl refl) in
      let told_all = then_round seen (print_statistics refl) in
      let missed =
        then_round told_all (inside (Step.worker 0 (omega arith) (Move.call_get 0)) (λ e. refl)) in
      let put_in =
        then_round missed
          (inside (Step.worker 0 (omega arith) (Move.call_put 0 ok c stored)) (λ e. refl)) in
      let stopping = then_round put_in (call_stop refl refl) in
      let halted = then_round stopping (inside (Step.stop_running refl) (λ e. cc)) in
      let woken = then_round halted (inside (Step.notify_all refl) (λ e. cc)) in
      let first =
        then_round woken (inside (Step.worker 0 (omega arith) (Move.leave refl)) (λ e. cc)) in
      let second =
        then_round first (inside (Step.worker 1 (omega arith) (Move.leave refl)) (λ e. cc)) in
      let third =
        then_round second (inside (Step.worker 2 (omega arith) (Move.leave refl)) (λ e. cc)) in
      let fourth =
        then_round third (inside (Step.worker 3 (omega arith) (Move.leave refl)) (λ e. cc)) in
      let one = then_round fourth (inside (Step.join 0 refl (omega arith) refl) (λ e. cc)) in
      let two = then_round one (inside (Step.join 1 refl (omega arith) refl) (λ e. cc)) in
      let three = then_round two (inside (Step.join 2 refl (omega arith) refl) (λ e. cc)) in
      let four = then_round three (inside (Step.join 3 refl (omega arith) refl) (λ e. cc)) in
      (_, then_round four (inside (Step.joined refl) (λ e. cc)), refl)

-- A course, by what `put` does.
abbrev pub course_by :
    (capacity : ℕ) (r : Option (Bool × BenchmarkCache))
    → put (bytes "a") (dummy_value (bytes "a")) 0 (asked capacity) ≡ r
    → Course capacity lru (some line)
course_by capacity none e = thrown
course_by capacity (some (ok, c)) e = let (s, b, h) = ends capacity ok c e in completed s b h

-- LRU completes, the others throw.
unfoldable pub one_course : (capacity : ℕ) (p : EvictionPolicy) → Course capacity p (some line)
unfolding put asked
one_course capacity fifo = thrown
one_course capacity sieve = thrown
one_course capacity clock = thrown
one_course capacity lru =
    course_by capacity (put (bytes "a") (dummy_value (bytes "a")) 0 (asked capacity)) refl
