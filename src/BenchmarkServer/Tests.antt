-- ===== src/BenchmarkServer/Tests.antt =====
-- Reachable states of benchmark_server.cpp, and the theorems at them.
use os_lab.Base.{
  map, Str, ◌≡◌, ◌≢◌, refl, false, some, [], ◌∷◌, ◌++◌, arith, ℕ_discrete, Str-discrete,
}
use os_lab.BenchmarkCache.Policies.{lru, clock}
use os_lab.BenchmarkCache.Valid
use os_lab.BenchmarkServer.{
  BenchmarkRequest, Pc, blocked, Main, joining, stopped, Move, System, Step, start, Reach, here,
  next, process_request,
}
use os_lab.BenchmarkServer.Reachable.{Alert, Reach-fifo, Reach-Alert}
use os_lab.BenchmarkServer.Stop.{stop_may_hang}
use os_lab.BenchmarkServer.Trace.{
  run_trace_benchmark, before_empty, line_request, get_request, run_trace_benchmark_lem,
}
use os_lab.Protocol.{bytes, get_lines}
use os_lab.TraceProcessor.{parse_line}

abbrev request : BenchmarkRequest
request = record { key = bytes "k"; operation = bytes "GET"; client_id = bytes "benchmark" }

-- One request is in the queue and no worker has looked yet.
abbrev queued : System
unfolding start
queued = record {
  mem = record (start 2 lru).mem { request_queue = request ∷ []; added = request ∷ [] };
  pc = λ i. Pc.checking;
  main = Main.notifying;
}

Reach-queued : Reach 2 2 lru queued
unfolding start queued
Reach-queued = next (next here (Step.add_request request refl refl)) (Step.push request refl refl)

-- Worker 1 has taken it.
Reach-taken :
    (s : System) × Reach 2 2 lru s × (s.pc 1 ≡ Pc.getting request) × (s.mem.taken ≡ request ∷ [])
unfolding start queued ℕ_discrete process_request Str-discrete
Reach-taken = (
  _,
  next
      (next
        (next (next Reach-queued (Step.worker 1 (omega arith) (Move.enter refl)))
          (Step.worker 1 (omega arith) (Move.lock refl)))
        (Step.worker 1 (omega arith) (Move.ready refl)))
      (Step.worker 1 (omega arith) (Move.take request [] refl)),
  refl,
  refl,
)

-- `stop` leaves a request in the queue if the workers see `running` first.
left_behind :
    (s : System) × Reach 2 2 lru s × (s.main ≡ stopped) × (s.mem.request_queue ≡ request ∷ [])
unfolding start queued ℕ_discrete
left_behind = (
  _,
  next
      (next
        (next
          (next
            (next
              (next
                (next
                  (next (next Reach-queued (Step.notify_nobody refl (λ i h b. cc)))
                    (Step.stop refl refl))
                  (Step.stop_running refl))
                (Step.notify_all refl))
              (Step.worker 0 (omega arith) (Move.leave refl)))
            (Step.worker 1 (omega arith) (Move.leave refl)))
          (Step.join 0 refl (omega arith) refl))
        (Step.join 1 refl (omega arith) refl))
      (Step.joined refl),
  refl,
  refl,
)

Reach-fifo_example :
    Valid.IsValid queued.mem.cache
    × (queued.mem.added ≡ queued.mem.taken ++ queued.mem.request_queue)
Reach-fifo_example = Reach-fifo 2 2 lru queued (omega arith) Reach-queued

queued_ne : queued.mem.request_queue ≢ []
unfolding queued
queued_ne e = cc

queued_running : queued.mem.shutdown ≡ false
unfolding queued
queued_running = refl

Reach-Alert_example : Alert 2 queued
Reach-Alert_example = Reach-Alert 2 2 lru queued (omega arith) Reach-queued queued_ne queued_running

stop_may_hang_example :
    (s : System) × Reach 4 10000 clock s
    × (s.main ≡ joining 0)
    × (s.pc 0 ≡ blocked)
    × ((t : System) → Step 4 s t → ⊥)
stop_may_hang_example = stop_may_hang 10000 clock

-- Two lines of a trace, an empty line and one more.
abbrev trace : Str
trace = bytes "1 a 7" ++ 10 ∷ bytes "b" ++ 10 ∷ 10 ∷ bytes "c" ++ 10 ∷ []

-- The loop ends at the empty line.
trace_requests_ab :
    run_trace_benchmark (some trace) ≡ get_request (bytes "a") ∷ get_request (bytes "b") ∷ []
unfolding get_lines parse_line
trace_requests_ab = run_trace_benchmark_lem trace

run_trace_benchmark_lem_example :
    run_trace_benchmark (some trace) ≡ map line_request (before_empty (get_lines trace))
run_trace_benchmark_lem_example = run_trace_benchmark_lem trace
