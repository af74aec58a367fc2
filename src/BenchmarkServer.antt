-- ===== src/BenchmarkServer.antt =====
-- `BenchmarkServer` of benchmark_server.h and benchmark_server.cpp: a queue of requests, worker
-- threads that serve them from a `BenchmarkCache`, and the main thread, which adds requests and
-- stops the server. The threads interleave in any order; each constructor is one access to what
-- they share.
pub mod Workers
pub mod Reachable
pub mod Stop
pub mod Trace
pub mod Counted
pub mod Benchmark
mod Tests
use os_lab.Base.{
  ℕ, zero, suc, ◌<◌, ◌≡◌, ◌≢◌, Bool, true, false, ◌||◌, ◌&&◌, not, Option, none, some, List, [],
  ◌∷◌, ◌++◌, Str, Str-discrete, ℕ_discrete, ite,
}
use os_lab.BenchmarkCache.{create, get, put}
use os_lab.BenchmarkCache.Policies.{EvictionPolicy, BenchmarkCache}
use os_lab.BenchmarkCache.Serve.{answer, after}
use os_lab.Protocol.{bytes}

pub record BenchmarkRequest : Type 0 where
  pub key : Str
  pub operation : Str
  pub client_id : Str

-- What the threads share. `holder` is the worker that has `queue_mutex`. `added` and `taken` are
-- not in the source: the requests that were put into the queue and taken out of it so far.
pub record Shared : Type 0 where
  pub cache : BenchmarkCache
  pub request_queue : List BenchmarkRequest
  pub holder : Option ℕ
  pub running : Bool
  pub shutdown : Bool
  pub added : List BenchmarkRequest
  pub taken : List BenchmarkRequest

-- Where a worker stands.
pub data Pc : Type 0 where
  checking : Pc  -- the head of `while (running)`
  locking : Pc  -- before it gets the mutex, at first or when `wait` was woken
  testing : Pc  -- before the predicate of `wait`
  parking : Pc  -- the predicate was false, and `wait` has not blocked yet
  blocked : Pc  -- in `wait`, without the mutex
  awake : Pc  -- behind `wait`
  getting : BenchmarkRequest → Pc  -- before `cache->get`
  putting : BenchmarkRequest → Pc  -- before `cache->put`
  finished : Pc

-- Where the main thread stands.
pub data Main : Type 0 where
  resting : Main
  pushing : BenchmarkRequest → Main  -- in `add_request`, before the mutex
  notifying : Main  -- before `notify_one`
  stopping : Main  -- in `stop`, before `running = false`
  waking : Main  -- before `notify_all`
  joining : ℕ → Main  -- before the `join` of a worker
  stopped : Main

abbrev pub is_nil : List BenchmarkRequest → Bool
is_nil [] = true
is_nil (r ∷ queue) = false

-- The predicate of `wait`.
abbrev pub wanted : Shared → Bool
wanted m = not (is_nil m.request_queue) || m.shutdown

unfoldable pub dummy_value : Str → Str
dummy_value key = bytes "cached_content_for_" ++ key

-- Where `process_request` starts, by the operation.
unfoldable pub process_request : BenchmarkRequest → Pc
process_request r =
    ite (Str-discrete r.operation (bytes "GET")) (getting r)
      (ite (Str-discrete r.operation (bytes "PUT")) (putting r) checking)

abbrev pub after_get : BenchmarkRequest → Bool × Str → Pc
after_get r (true, value) = checking
after_get r (false, value) = putting r

-- A step of worker `i`.
pub data Move (i : ℕ) (m : Shared) : Pc → Shared → Pc → Type 0 where
  enter : m.running ≡ true → Move i m checking m locking
  leave : m.running ≡ false → Move i m checking m finished
  lock : m.holder ≡ none → Move i m locking (record m { holder = some i }) testing
  ready : wanted m ≡ true → Move i m testing m awake
  idle : wanted m ≡ false → Move i m testing m parking
  park : Move i m parking (record m { holder = none }) blocked
  drained :
      m.shutdown && is_nil m.request_queue ≡ true
      → Move i m awake (record m { holder = none }) finished
  take :
      (r : BenchmarkRequest) (rest : List BenchmarkRequest)
      → m.request_queue ≡ r ∷ rest
      → Move i m awake
          (record m { request_queue = rest; holder = none; taken = m.taken ++ r ∷ [] })
          (process_request r)
  nothing :
      m.request_queue ≡ []
      → m.shutdown ≡ false
      → Move i m awake (record m { holder = none }) checking
  call_get :
      {r : BenchmarkRequest} (now : ℕ)
      → Move i m
          (getting r)
          (record m { cache = after (get r.key [] now m.cache) })
          (after_get r (answer (get r.key [] now m.cache)))
  call_put :
      {r : BenchmarkRequest} (now : ℕ) (ok : Bool) (c : BenchmarkCache)
      → put r.key (dummy_value r.key) now m.cache ≡ some (ok, c)
      → Move i m (putting r) (record m { cache = c }) checking

pub record System : Type 0 where
  pub mem : Shared
  pub pc : ℕ → Pc
  pub main : Main

abbrev pub set_pc : ℕ → Pc → (ℕ → Pc) → ℕ → Pc
set_pc i p pc j = ite (ℕ_discrete j i) p (pc j)

abbrev pub wake : Pc → Pc
wake blocked = locking
wake p = p

-- A step of `n` workers and the main thread.
pub data Step (n : ℕ) (s : System) : System → Type 0 where
  worker :
      (i : ℕ) {m : Shared} {p : Pc}
      → i < n
      → Move i s.mem (s.pc i) m p
      → Step n s (record s { mem = m; pc = set_pc i p s.pc })
  add_request :
      (r : BenchmarkRequest)
      → s.main ≡ resting
      → s.mem.running ≡ true
      → Step n s (record s { main = pushing r })
  push :
      (r : BenchmarkRequest)
      → s.main ≡ pushing r
      → s.mem.holder ≡ none
      → Step n s (record s {
        mem = record s.mem {
          request_queue = s.mem.request_queue ++ r ∷ [];
          added = s.mem.added ++ r ∷ [];
        };
        main = notifying;
      })
  notify_one :
      (i : ℕ)
      → s.main ≡ notifying
      → i < n
      → s.pc i ≡ blocked
      → Step n s (record s { pc = set_pc i locking s.pc; main = resting })
  notify_nobody :
      s.main ≡ notifying
      → ((i : ℕ) → i < n → s.pc i ≢ blocked)
      → Step n s (record s { main = resting })
  stop :
      s.main ≡ resting
      → s.mem.running ≡ true
      → Step n s (record s { mem = record s.mem { shutdown = true }; main = stopping })
  stop_running :
      s.main ≡ stopping
      → Step n s (record s { mem = record s.mem { running = false }; main = waking })
  notify_all : s.main ≡ waking → Step n s (record s { pc = λ i. wake (s.pc i); main = joining 0 })
  join :
      (i : ℕ)
      → s.main ≡ joining i
      → i < n
      → s.pc i ≡ finished
      → Step n s (record s { main = joining (suc i) })
  joined : s.main ≡ joining n → Step n s (record s { main = stopped })

-- The C++ standard lets `wait` wake up by itself.
pub data Wakeup (n : ℕ) (s : System) : System → Type 0 where
  spurious :
      (i : ℕ) → i < n → s.pc i ≡ blocked → Wakeup n s (record s { pc = set_pc i locking s.pc })

-- The server as the constructor and `start` leave it.
unfoldable pub start : ℕ → EvictionPolicy → System
unfolding create
start capacity policy = record {
  mem = record {
    cache = create capacity policy;
    request_queue = [];
    holder = none;
    running = true;
    shutdown = false;
    added = [];
    taken = [];
  };
  pc = λ i. checking;
  main = resting;
}

pub data Reach (n capacity : ℕ) (policy : EvictionPolicy) : System → Type 0 where
  here : Reach n capacity policy (start capacity policy)
  next : {s t : System} → Reach n capacity policy s → Step n s t → Reach n capacity policy t
  wakeup : {s t : System} → Reach n capacity policy s → Wakeup n s t → Reach n capacity policy t
