-- ===== src/BenchmarkServer/Counted.antt =====
-- What the counters of the cache of benchmark_server.cpp count while the workers run: the requests
-- to get a key that were taken from the queue, but for those that a worker still has in hand.
use os_lab.Base.{
  ℕ, zero, suc, ◌+◌, ◌<◌, ◌≤◌, ◌≡◌, refl, ap, Bool, true, false, List, [], ◌∷◌, ◌++◌, Str,
  Str-discrete, ℕ_discrete, ite, arith,
}
use os_lab.Protocol.{bytes}
use os_lab.BenchmarkCache.{create, get}
use os_lab.BenchmarkCache.Policies.{EvictionPolicy}
use os_lab.BenchmarkCache.Serve.{answer}
use os_lab.BenchmarkCache.Counters.{Tally, get-Tally, put-Tally}
use os_lab.BenchmarkServer.{
  BenchmarkRequest, Shared, Pc, checking, locking, blocked, getting, dummy_value, process_request,
  after_get, Move, System, set_pc, wake, Step, Wakeup, spurious, start, Reach, here, next, wakeup,
}

-- Whether a worker stands before `cache->get`.
abbrev pub at_get : Pc → ℕ
at_get (getting r) = 1
at_get _ = 0

abbrev pub in_flight : ℕ → (ℕ → Pc) → ℕ
in_flight zero pc = 0
in_flight (suc n) pc = at_get (pc n) + in_flight n pc

abbrev is_get : BenchmarkRequest → ℕ
is_get r = ite (Str-discrete r.operation (bytes "GET")) 1 0

abbrev pub gets_in : List BenchmarkRequest → ℕ
gets_in [] = 0
gets_in (r ∷ rs) = is_get r + gets_in rs

gets_in-append : (rs qs : List BenchmarkRequest) → gets_in (rs ++ qs) ≡ gets_in rs + gets_in qs
gets_in-append [] qs = omega arith
gets_in-append (r ∷ rs) qs = omega (arith, gets_in-append rs qs)

in_flight-beyond :
    (n i : ℕ) (p : Pc) (pc : ℕ → Pc) → n ≤ i → in_flight n (set_pc i p pc) ≡ in_flight n pc
in_flight-beyond zero i p pc h = refl
in_flight-beyond (suc n) i p pc h =
    let same : set_pc i p pc n ≡ pc n = ground arith in
    rw same (ap (λ k. at_get (pc n) + k) (in_flight-beyond n i p pc (omega arith)))

in_flight-set_pc :
    (n i : ℕ) (p : Pc) (pc : ℕ → Pc)
    → i < n
    → in_flight n (set_pc i p pc) + at_get (pc i) ≡ in_flight n pc + at_get p
in_flight-set_pc zero i p pc h = absurd (omega arith)
in_flight-set_pc (suc n) i p pc h = elim (ℕ_discrete n i) [
  | yes e ↦
      let here : set_pc i p pc n ≡ p = ground arith in
      rw here (omega (arith, in_flight-beyond n i p pc (omega arith), ap (λ k. at_get (pc k)) e))
  | no d ↦
      let same : set_pc i p pc n ≡ pc n = ground arith in
      rw same (omega (arith, in_flight-set_pc n i p pc (omega arith)))
]

at_get-wake : (p : Pc) → at_get (wake p) ≡ at_get p
at_get-wake blocked = refl
at_get-wake p = refl

in_flight-wake : (n : ℕ) (pc : ℕ → Pc) → in_flight n (λ i. wake (pc i)) ≡ in_flight n pc
in_flight-wake zero pc = refl
in_flight-wake (suc n) pc = omega (arith, at_get-wake (pc n), in_flight-wake n pc)

process_request-at_get : (r : BenchmarkRequest) → at_get (process_request r) ≡ is_get r
unfolding process_request
process_request-at_get r = ground arith

after_get-at_get : (r : BenchmarkRequest) (a : Bool × Str) → at_get (after_get r a) ≡ 0
after_get-at_get r (true, value) = refl
after_get-at_get r (false, value) = refl

-- What one step of a worker makes of the counters.
move-Tally :
    {i : ℕ} {m m' : Shared} {p p' : Pc}
    → Move i m p m' p'
    → (g : ℕ) → Tally g m.cache
    → (g' : ℕ) × Tally g' m'.cache
      × (g' + at_get p' + gets_in m.taken ≡ g + at_get p + gets_in m'.taken)
move-Tally (Move.enter h) g t = (g, t, refl)
move-Tally (Move.leave h) g t = (g, t, refl)
move-Tally (Move.lock h) g t = (g, t, refl)
move-Tally (Move.ready h) g t = (g, t, refl)
move-Tally (Move.idle h) g t = (g, t, refl)
move-Tally Move.park g t = (g, t, refl)
move-Tally (Move.drained h) g t = (g, t, refl)
move-Tally {m} (Move.take r rest h) g t =
    (g, t, omega (arith, process_request-at_get r, gets_in-append m.taken (r ∷ [])))
move-Tally (Move.nothing h k) g t = (g, t, refl)
move-Tally {m} (Move.call_get {r} now) g t = (
  g + 1,
  get-Tally g r.key [] now m.cache t,
  omega (arith, after_get-at_get r (answer (get r.key [] now m.cache))),
)
move-Tally {m} (Move.call_put {r} now ok c h) g t =
    (g, put-Tally g r.key (dummy_value r.key) now m.cache c ok h t, refl)

-- The counters have counted the requests to get a key that were taken, but for those in flight.
abbrev pub Counted : ℕ → System → Type 0
Counted n s = (g : ℕ) × Tally g s.mem.cache × (g + in_flight n s.pc ≡ gets_in s.mem.taken)

worker-Counted :
    (n i : ℕ) (s : System) (m : Shared) (p : Pc)
    → i < n
    → Move i s.mem (s.pc i) m p
    → Counted n s
    → Counted n (record s { mem = m; pc = set_pc i p s.pc })
worker-Counted n i s m p lt mv (g, t, e) =
    let (g', t', balance) = move-Tally mv g t in
    (g', t', omega (arith, in_flight-set_pc n i p s.pc lt, balance, e))

woken-Counted :
    (n i : ℕ) (s : System)
    → i < n
    → s.pc i ≡ blocked
    → in_flight n (set_pc i locking s.pc) ≡ in_flight n s.pc
woken-Counted n i s lt b = omega (arith, in_flight-set_pc n i locking s.pc lt, ap at_get b)

step-Counted : (n : ℕ) {s t : System} → Step n s t → Counted n s → Counted n t
step-Counted n {s} (Step.worker i {m} {p} lt mv) c = worker-Counted n i s m p lt mv c
step-Counted n {s} (Step.add_request r h run) c = c
step-Counted n {s} (Step.push r h free) c = c
step-Counted n {s} (Step.notify_one i h lt b) (g, t, e) =
    (g, t, omega (arith, woken-Counted n i s lt b, e))
step-Counted n {s} (Step.notify_nobody h nobody) c = c
step-Counted n {s} (Step.stop h run) c = c
step-Counted n {s} (Step.stop_running h) c = c
step-Counted n {s} (Step.notify_all h) (g, t, e) = (g, t, omega (arith, in_flight-wake n s.pc, e))
step-Counted n {s} (Step.join i h lt f) c = c
step-Counted n {s} (Step.joined h) c = c

Wakeup-Counted : (n : ℕ) {s t : System} → Wakeup n s t → Counted n s → Counted n t
Wakeup-Counted n {s} (spurious i lt b) (g, t, e) =
    (g, t, omega (arith, woken-Counted n i s lt b, e))

in_flight-none : (n : ℕ) → in_flight n (λ i. checking) ≡ 0
in_flight-none zero = refl
in_flight-none (suc n) = omega (arith, in_flight-none n)

start-Counted : (n capacity : ℕ) (policy : EvictionPolicy) → Counted n (start capacity policy)
unfolding start create
start-Counted n capacity policy = (0, (refl, refl), omega (arith, in_flight-none n))

pub Reach-Counted :
    (n capacity : ℕ) (policy : EvictionPolicy) {s : System}
    → Reach n capacity policy s
    → Counted n s
Reach-Counted n capacity policy here = start-Counted n capacity policy
Reach-Counted n capacity policy (next r st) = step-Counted n st (Reach-Counted n capacity policy r)
Reach-Counted n capacity policy (wakeup r st) =
    Wakeup-Counted n st (Reach-Counted n capacity policy r)
