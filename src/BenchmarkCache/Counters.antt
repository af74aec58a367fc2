-- ===== src/BenchmarkCache/Counters.antt =====
-- The counters of benchmark_cache.cpp: what counts, and what leaves them alone.
use os_lab.Base.{
  ℕ, zero, suc, ◌+◌, ◌%◌, ◌^◌, ◌≡◌, refl, sym, ap, ◌∙◌, Bool, true, Option, none, some, List, [],
  ◌∷◌, Str, Str-discrete, leb, arith, length, get_elem?, Option-cases, Bool-cases, inl, inr, ◌⊎◌,
  subst,
}
use os_lab.Dict.{find, put as map_put}
use os_lab.BenchmarkCache.{
  create, update_policy, evict_policy, add_policy, insert_entry, get, put, then_insert, u64_mod,
}
use os_lab.BenchmarkCache.Policies.{
  EvictionPolicy, lru, fifo, sieve, clock, BenchmarkCache, Entries, Round, evicted, again, sweep,
  evict_back, evict_front, evict_first, after_sweep, evict_slot, evict_lru, evict_fifo, evict_sieve,
  evict_clock, update_lru, update_fifo, update_sieve, update_clock, add_lru, add_fifo, add_sieve,
  add_clock, clock_round, clock_loop,
}
use os_lab.BenchmarkCache.Clock.{clock_loop_evicted, clock_loop_again}
use os_lab.BenchmarkCache.Serve.{after, get-hit, get-miss, get_lem}
use os_lab.BenchmarkCache.Put.{put_stores}
use os_lab.BenchmarkCache.Valid.{IsValid}
use os_lab.BenchmarkCache.Run.{Request, get_request, put_request, serve, serve_all, create-IsValid}

abbrev pub counters : BenchmarkCache → ℕ × ℕ × ℕ
counters c = (c.hit_count, c.miss_count, c.total_requests)

abbrev Same : BenchmarkCache → BenchmarkCache → Type 0
Same c c' = counters c' ≡ counters c

update_policy-counters :
    (p : EvictionPolicy) (key : Str) (c : BenchmarkCache) → Same c (update_policy p key c)
unfolding update_policy update_lru update_fifo update_sieve update_clock
update_policy-counters lru key c = refl
update_policy-counters fifo key c = refl
update_policy-counters sieve key c = refl
update_policy-counters clock key c = refl

add_policy-counters :
    (p : EvictionPolicy) (key : Str) (c : BenchmarkCache) → Same c (add_policy p key c)
unfolding add_policy add_lru add_fifo add_sieve add_clock
add_policy-counters lru key c = refl
add_policy-counters fifo key c = refl
add_policy-counters sieve key c = refl
add_policy-counters clock key c = refl

evict_back-counters : (order : List Str) (c : BenchmarkCache) → Same c (evict_back order c)
evict_back-counters [] c = refl
evict_back-counters (k ∷ order) c = refl

evict_front-counters : (queue : List Str) (c : BenchmarkCache) → Same c (evict_front queue c)
evict_front-counters [] c = refl
evict_front-counters (k ∷ queue) c = refl

evict_first-counters :
    (order : List Str) (m : Entries) (c : BenchmarkCache) → Same c (evict_first order m c)
evict_first-counters [] m c = refl
evict_first-counters (k ∷ order) m c = refl

after_sweep-counters :
    (victim : Option Str) (order : List Str) (m : Entries) (c : BenchmarkCache)
    → Same c (after_sweep (record { victim = victim; order = order; entries = m }) c)
after_sweep-counters none order m c = evict_first-counters order m c
after_sweep-counters (some k) order m c = refl

abbrev Keeps : BenchmarkCache → Option BenchmarkCache → Type 0
Keeps c none = Unit {0}
Keeps c (some c') = Same c c'

abbrev RoundKeeps : BenchmarkCache → Round → Type 0
RoundKeeps c (evicted c') = Same c c'
RoundKeeps c (again c') = Same c c'

clock_round-counters : (k : Str) (c : BenchmarkCache) → RoundKeeps c (clock_round k c)
unfolding clock_round
clock_round-counters k c = elim (Option-cases (find Str-discrete k c.cache_map)) [
  | inl h ↦ rw (clock_round, h)
  | inr (e, h) ↦ elim (Bool-cases e.reference_bit) [
    | inl on ↦ rw (clock_round, h, on)
    | inr off ↦ rw (clock_round, h, off)
  ]
]

Round-cases :
    (r : Round) → ((c : BenchmarkCache) × (r ≡ evicted c)) ⊎ ((c : BenchmarkCache) × (r ≡ again c))
Round-cases (evicted c) = inl (c, refl)
Round-cases (again c) = inr (c, refl)

Keeps-after :
    (c c' : BenchmarkCache) (o : Option BenchmarkCache) → Same c c' → Keeps c' o → Keeps c o
Keeps-after c c' none h k = tt
Keeps-after c c' (some d) h k = k ∙ h

clock_loop-counters : (fuel : ℕ) (c : BenchmarkCache) → Keeps c (clock_loop fuel c)
unfolding clock_loop
clock_loop-counters zero c = tt
clock_loop-counters (suc fuel) c = elim (Option-cases (get_elem? c.clock_buffer c.clock_hand)) [
  | inl h ↦ rw (clock_loop, h) tt
  | inr (k, h) ↦ elim (Round-cases (clock_round k c)) [
    | inl (c', e) ↦
        let s : Same c c' = subst (RoundKeeps c) e (clock_round-counters k c) in
        subst (Keeps c) (sym (clock_loop_evicted fuel c c' k h e)) s
    | inr (c', e) ↦
        let s : Same c c' = subst (RoundKeeps c) e (clock_round-counters k c) in
        subst (Keeps c) (sym (clock_loop_again fuel c c' k h e))
          (Keeps-after c c' (clock_loop fuel c') s (clock_loop-counters fuel c'))
  ]
]

evict_slot-counters : (buffer : List Str) (c : BenchmarkCache) → Keeps c (evict_slot buffer c)
evict_slot-counters [] c = refl
evict_slot-counters (k ∷ buffer) c = clock_loop-counters (suc (length c.cache_map)) c

evict_policy-counters : (p : EvictionPolicy) (c : BenchmarkCache) → Keeps c (evict_policy p c)
unfolding evict_policy evict_lru evict_fifo evict_sieve evict_clock
evict_policy-counters lru c = evict_back-counters c.lru_order c
evict_policy-counters fifo c = evict_front-counters c.fifo_queue c
evict_policy-counters sieve c =
    let s = sweep c.sieve_order c.cache_map in after_sweep-counters s.victim s.order s.entries c
evict_policy-counters clock c = evict_slot-counters c.clock_buffer c

module _ (key value : Str) (now : ℕ) where
  abbrev PutKeeps : BenchmarkCache → Option (Bool × BenchmarkCache) → Type 0
  PutKeeps c none = Unit {0}
  PutKeeps c (some r) = Same c r.1

  insert_entry-counters : (c : BenchmarkCache) → Same c (insert_entry key value now c)
  unfolding insert_entry
  insert_entry-counters c = add_policy-counters c.policy key _

  then_insert-counters :
      (c : BenchmarkCache) (o : Option BenchmarkCache)
      → Keeps c o
      → PutKeeps c (then_insert key value now o)
  then_insert-counters c none k = tt
  then_insert-counters c (some c') k = insert_entry-counters c' ∙ k

  put_keeps : (c : BenchmarkCache) → PutKeeps c (put key value now c)
  unfolding put
  put_keeps c = elim (Option-cases (find Str-discrete key c.cache_map)) [
    | inr (e, h) ↦ rw (put, h) (update_policy-counters c.policy key _)
    | inl h ↦ elim (Bool-cases (leb c.max_capacity (length c.cache_map))) [
      | inl full ↦
          rw (put, h, full)
            (then_insert-counters c (evict_policy c.policy c) (evict_policy-counters c.policy c))
      | inr room ↦ rw (put, h, room) (insert_entry-counters c)
    ]
  ]

  pub put-counters :
      (c c' : BenchmarkCache) (ok : Bool)
      → put key value now c ≡ some (ok, c')
      → counters c' ≡ counters c
  put-counters c c' ok h =
      let k : PutKeeps c (some (ok, c')) = subst (PutKeeps c) h (put_keeps c) in k

-- After `n` calls of `get` the counters, which wrap, have counted `n` requests, and as many hits
-- and misses together.
abbrev pub Tally : ℕ → BenchmarkCache → Type 0
Tally n c = (c.total_requests ≡ n % 2 ^ 64) × ((c.hit_count + c.miss_count) % 2 ^ 64 ≡ n % 2 ^ 64)

Tally-counters : (n : ℕ) (c c' : BenchmarkCache) → counters c' ≡ counters c → Tally n c → Tally n c'
Tally-counters n c c' e h = ground (
  arith,
  ap (λ (t : ℕ × ℕ × ℕ). t.0) e,
  ap (λ (t : ℕ × ℕ × ℕ). t.1) e,
  ap (λ (t : ℕ × ℕ × ℕ). t.2) e,
)

pub get-Tally :
    (n : ℕ) (key value : Str) (now : ℕ) (c : BenchmarkCache)
    → Tally n c
    → Tally (n + 1) (after (get key value now c))
get-Tally n key value now c t = elim (Option-cases (find Str-discrete key c.cache_map)) [
  | inl h ↦ rw (get-miss key value now c h) (omega arith)
  | inr (e, h) ↦
      let c₁ : BenchmarkCache = record c {
        total_requests = (c.total_requests + 1) % u64_mod;
        hit_count = (c.hit_count + 1) % u64_mod;
        cache_map = map_put Str-discrete key (record e { access_time = now }) c.cache_map;
      } in
      rw (get-hit key value now c e h) (
        Tally-counters (n + 1) c₁ (update_policy c.policy key c₁)
          (update_policy-counters c.policy key c₁) (omega arith))
]

pub put-Tally :
    (n : ℕ) (key value : Str) (now : ℕ) (c c' : BenchmarkCache) (ok : Bool)
    → put key value now c ≡ some (ok, c')
    → Tally n c
    → Tally n c'
put-Tally n key value now c c' ok h = Tally-counters n c c' (put-counters key value now c c' ok h)

abbrev pub gets : List Request → ℕ
gets [] = 0
gets (get_request key now ∷ requests) = 1 + gets requests
gets (put_request key value now ∷ requests) = gets requests

serve_all-Tally :
    (requests : List Request) (n : ℕ) (c : BenchmarkCache)
    → IsValid c
    → Tally n c
    → (c' : BenchmarkCache) × (serve_all requests c ≡ some c') × Tally (gets requests + n) c'
unfolding serve_all serve
serve_all-Tally [] n c v t = (c, refl, omega arith)
serve_all-Tally (get_request key now ∷ requests) n c v t =
    let c₁ = after (get key [] now c) in
    let (c', rest, t') =
      serve_all-Tally requests (n + 1) c₁ (get_lem key [] now c v).valid
        (get-Tally n key [] now c t) in
    (c', rest, omega arith)
serve_all-Tally (put_request key value now ∷ requests) n c v t =
    let (c₁, returns, s) = put_stores key value now c v in
    let (c', rest, t') =
      serve_all-Tally requests n c₁ s.valid (put-Tally n key value now c c₁ true returns t) in
    (c', rw (serve_all, returns) rest, t')

-- Any sequence of `get` and `put` from an empty cache on returns, and then `total_requests` is the
-- number of calls of `get`, and so is the sum of hits and misses, both up to the wrap at 2^64.
pub serve_all_counts :
    (requests : List Request) (capacity : ℕ) (policy : EvictionPolicy)
    → (c' : BenchmarkCache) × (serve_all requests (create capacity policy) ≡ some c')
      × (c'.total_requests ≡ gets requests % 2 ^ 64)
      × ((c'.hit_count + c'.miss_count) % 2 ^ 64 ≡ gets requests % 2 ^ 64)
unfolding create
serve_all_counts requests capacity policy =
    let (c', returns, t) =
      serve_all-Tally requests 0 (create capacity policy) (create-IsValid capacity policy)
        (omega arith) in
    (c', returns, omega arith, omega arith)
