-- ===== src/BenchmarkServer/Benchmark.antt =====
-- `run_single_benchmark` of cache_benchmark.cpp and `run_trace_benchmark` of benchmark_server.cpp,
-- as the main thread runs them while the workers of the server serve the requests.
mod Follows
mod Report
mod Tests
use os_lab.Base.{ℕ, ◌≡◌, true, false, Option, none, some, List, [], ◌∷◌, Str}
use os_lab.TraceProcessor.{initialize}
use os_lab.BenchmarkCache.{reset_stats}
use os_lab.BenchmarkCache.Policies.{EvictionPolicy}
use os_lab.BenchmarkServer.{
  BenchmarkRequest, Main, resting, pushing, stopping, stopped, System, Step, Wakeup, start,
}
use os_lab.BenchmarkServer.Trace.{run_trace_benchmark}

-- What the main thread does next: it adds requests, it looks whether the queue is empty, it prints
-- the statistics, or it stops the server.
pub data Phase : Type 0 where
  adding : List BenchmarkRequest → Phase
  waiting : Phase
  printing : Phase
  printed : Phase

-- The server when the requests begin: `start` was called, and `reset_stats`, before which no worker
-- finds a request.
unfoldable pub begin : ℕ → EvictionPolicy → System
unfolding start reset_stats
begin capacity policy =
    let s = start capacity policy in
    record s { mem = record s.mem { cache = reset_stats s.mem.cache } }

-- If the trace cannot be opened, nothing is printed.
unfoldable pub first_phase : Option Str → Phase
unfolding initialize run_trace_benchmark
first_phase file = elim (initialize file) [
  | none ↦ printed
  | some s ↦ adding (run_trace_benchmark file)
]

-- A step of the benchmark with `n` workers. Between its calls the main thread is at rest.
pub data Round (n : ℕ) (s : System) : Phase → Phase → System → Type 0 where
  -- A worker goes on, or the call of the main thread that has begun.
  inside :
      {phase : Phase} {t : System}
      → Step n s t
      → (s.main ≡ resting → t.main ≡ resting)
      → Round n s phase phase t
  woken : {phase : Phase} {t : System} → Wakeup n s t → Round n s phase phase t
  add_next :
      (r : BenchmarkRequest) (rs : List BenchmarkRequest)
      → s.main ≡ resting
      → s.mem.running ≡ true
      → Round n s (adding (r ∷ rs)) (adding rs) (record s { main = pushing r })
  -- `add_request` does nothing if the server does not run.
  drop_next :
      (r : BenchmarkRequest) (rs : List BenchmarkRequest)
      → s.main ≡ resting
      → s.mem.running ≡ false
      → Round n s (adding (r ∷ rs)) (adding rs) s
  no_more : s.main ≡ resting → Round n s (adding []) waiting s
  -- The test of the queue, under the mutex; otherwise the main thread sleeps and tests again.
  seen_empty :
      s.main ≡ resting
      → s.mem.holder ≡ none
      → s.mem.request_queue ≡ []
      → Round n s waiting printing s
  print_statistics : s.main ≡ resting → Round n s printing printed s
  call_stop :
      s.main ≡ resting
      → s.mem.running ≡ true
      → Round n s printed printed
          (record s { mem = record s.mem { shutdown = true }; main = stopping })

pub data Benchmark (n capacity : ℕ) (policy : EvictionPolicy) (file : Option Str)
    : Phase → System → Type 0 where
  begun : Benchmark n capacity policy file (first_phase file) (begin capacity policy)
  then_round :
      {phase phase' : Phase} {s t : System}
      → Benchmark n capacity policy file phase s
      → Round n s phase phase' t
      → Benchmark n capacity policy file phase' t

-- How `run_single_benchmark` ends, with the four workers of the source: the steps of its threads
-- lead behind `stop`; it waits for ever; or there is an exception, in it or in the sampling that
-- `main` does next. The last two may happen at any time here.
pub data Course (capacity : ℕ) (policy : EvictionPolicy) (file : Option Str) : Type 0 where
  completed :
      (s : System)
      → Benchmark 4 capacity policy file printed s
      → s.main ≡ stopped
      → Course capacity policy file
  stuck : Course capacity policy file
  thrown : Course capacity policy file
