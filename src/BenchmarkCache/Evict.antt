-- ===== src/BenchmarkCache/Evict.antt =====
-- The evictions of benchmark_cache.cpp, for each policy.
use os_lab.Base.{
  ℕ, zero, suc, ◌+◌, ◌-◌, ◌≤◌, ◌<◌, ◌≡◌, refl, ap, ◌∙◌, ◌⊎◌, inl, inr, Option, none, some, List, [],
  ◌∷◌, Str, Str-discrete, ite, arith, length, length-set,
}
use os_lab.Dict.{find, Distinct}
use os_lab.Keys.{count_key, present, present-le-one}
use os_lab.BenchmarkCache.{evict_policy}
use os_lab.BenchmarkCache.Policies.{
  EvictionPolicy, lru, fifo, sieve, clock, BenchmarkCache, Entries, last_of, pop_back, sweep,
  evict_lru, evict_fifo, evict_sieve, evict_clock, evict_back, evict_slot, evict_front, evict_first,
  after_sweep,
}
use os_lab.BenchmarkCache.Valid.{lookup, Removed, Tracked, ClockTracked, Ordered}
use os_lab.BenchmarkCache.Orders.{count_key-pop_back, erase-Removed, Tracked-erase}
use os_lab.BenchmarkCache.Sieve.{taken_key, taken_some, without, Swept, sweep_lem}
use os_lab.BenchmarkCache.Clock.{ClockEvicted, evict_clock_ends, count_key-set}

-- What an eviction in policy `p` does.
pub record Evicted (p : EvictionPolicy) (c c' : BenchmarkCache) : Type 0 where
  pub victim : Option Str
  pub values : (k : Str) → lookup k c'.cache_map ≡ without victim k (lookup k c.cache_map)
  pub distinct : Distinct Str-discrete c'.cache_map
  pub size : length c'.cache_map ≡ length c.cache_map - 1
  pub order : Ordered 1 p c'
  pub policy : c'.policy ≡ c.policy
  pub capacity : c'.max_capacity ≡ c.max_capacity

Removed-Evicted :
    (p : EvictionPolicy) (c c' : BenchmarkCache) (key : Str)
    → Removed c c' key
    → Ordered 1 p c'
    → Evicted p c c'
unfolding without
Removed-Evicted p c c' key r o = record {
  victim = some key;
  values = r.values;
  distinct = r.distinct;
  size = omega (arith, r.size);
  order = o;
  policy = r.policy;
  capacity = r.capacity;
}

-- No order, no entries.
nothing_tracked :
    (m : Entries) → Distinct Str-discrete m → ((k : Str) → 0 ≡ present k m) → length m ≡ 0
nothing_tracked [] d t = refl
nothing_tracked ((k, e) ∷ m) d t = absurd (unfold present find in ground (arith, t k))

Evicted-none :
    (p : EvictionPolicy) (c : BenchmarkCache)
    → Distinct Str-discrete c.cache_map
    → length c.cache_map ≡ 0
    → Ordered 1 p c
    → Evicted p c c
unfolding without
Evicted-none p c d h o = record {
  victim = none;
  values = λ k. refl;
  distinct = d;
  size = omega (arith, h);
  order = o;
  policy = refl;
  capacity = refl;
}

evict_back_lem :
    (order : List Str) (c : BenchmarkCache)
    → c.lru_order ≡ order
    → Distinct Str-discrete c.cache_map
    → Tracked order c.cache_map
    → Evicted lru c (evict_back order c)
unfolding Ordered count_key
evict_back_lem [] c h d t = Evicted-none lru c d (nothing_tracked c.cache_map d t) (rw h t)
evict_back_lem (j ∷ order) c h d t =
    let there : present (last_of j order) c.cache_map ≡ 1 = ground (
      arith,
      t (last_of j order),
      count_key-pop_back (last_of j order) j order,
      present-le-one (last_of j order) c.cache_map,
    ) in
    let r = erase-Removed c (last_of j order) d there (evict_back (j ∷ order) c) refl refl refl in
    Removed-Evicted lru c (evict_back (j ∷ order) c) (last_of j order) r (
      Tracked-erase (j ∷ order) (pop_back j order) (last_of j order) c (evict_back (j ∷ order) c) t
        (λ k. count_key-pop_back k j order) r)

evict_front_lem :
    (queue : List Str) (c : BenchmarkCache)
    → c.fifo_queue ≡ queue
    → Distinct Str-discrete c.cache_map
    → Tracked queue c.cache_map
    → Evicted fifo c (evict_front queue c)
unfolding Ordered count_key
evict_front_lem [] c h d t = Evicted-none fifo c d (nothing_tracked c.cache_map d t) (rw h t)
evict_front_lem (j ∷ queue) c h d t =
    let there : present j c.cache_map ≡ 1 = ground (arith, t j, present-le-one j c.cache_map) in
    let r = erase-Removed c j d there (evict_front (j ∷ queue) c) refl refl refl in
    Removed-Evicted fifo c (evict_front (j ∷ queue) c) j r
      (Tracked-erase (j ∷ queue) queue j c (evict_front (j ∷ queue) c) t (λ k. omega arith) r)

-- After a sweep that spared all, the first key goes.
evict_first_lem :
    (order : List Str) (m : Entries) (c : BenchmarkCache)
    → Distinct Str-discrete m
    → Tracked order m
    → Evicted sieve (record c { cache_map = m; sieve_order = order }) (evict_first order m c)
unfolding Ordered count_key
evict_first_lem [] m c d t =
    Evicted-none sieve (record c { cache_map = m; sieve_order = [] }) d (nothing_tracked m d t) t
evict_first_lem (j ∷ order) m c d t =
    let c₁ : BenchmarkCache = record c { cache_map = m; sieve_order = j ∷ order } in
    let there : present j m ≡ 1 = ground (arith, t j, present-le-one j m) in
    let r = erase-Removed c₁ j d there (evict_first (j ∷ order) m c) refl refl refl in
    Removed-Evicted sieve c₁ (evict_first (j ∷ order) m c) j r
      (Tracked-erase (j ∷ order) order j c₁ (evict_first (j ∷ order) m c) t (λ k. omega arith) r)

after_sweep_lem :
    (victim : Option Str) (order : List Str) (entries : Entries) (c : BenchmarkCache)
    → Tracked c.sieve_order c.cache_map
    → Swept c.sieve_order c.cache_map (record { victim = victim; order = order; entries = entries })
    → Evicted sieve c (after_sweep (record { victim = victim; order = order; entries = entries }) c)
unfolding Ordered taken_key taken_some without
after_sweep_lem none order entries c t w =
    let e =
      evict_first_lem order entries c w.distinct
        (λ k. omega (arith, w.order_left k, w.keys k, t k)) in
    record {
      victim = e.victim;
      values = λ k. e.values k ∙ ap (without e.victim k) (w.values k);
      distinct = e.distinct;
      size = omega (arith, e.size, w.size);
      order = e.order;
      policy = e.policy;
      capacity = e.capacity;
    }
after_sweep_lem (some v) order entries c t w = record {
  victim = some v;
  values = w.values;
  distinct = w.distinct;
  size = omega (arith, w.size);
  order = λ k. omega (arith, w.order_left k, w.keys k, t k);
  policy = refl;
  capacity = refl;
}

module _ {P Q : Type 0} (same : Dec P) (free : Dec Q) (n n' p p' : ℕ)
    (counts : n' + ite same 1 0 ≡ n + ite free 1 0) (keys : p' ≡ ite same 0 p) where
  freed_held : n ≤ p + ite free 0 0 → p ≤ 1 → n' ≤ p' + ite free 1 0
  freed_held h one = ground arith

  freed_known : p ≤ n + ite free 1 0 → p' ≤ n' + ite free 1 0
  freed_known h = ground arith

-- The slots after the victim's slot was freed.
freed-ClockTracked :
    (c c' : BenchmarkCache) → ClockTracked 0 c → ClockEvicted c c' → ClockTracked 1 c'
freed-ClockTracked c c' t v =
    let counts : (k : Str)
        → count_key k c'.clock_buffer + ite (Str-discrete k v.key) 1 0
          ≡ count_key k c.clock_buffer + ite (Str-discrete k []) 1 0 =
      λ k.
        ap (λ b. count_key k b + ite (Str-discrete k v.key) 1 0) v.buffer
        ∙ count_key-set k v.key [] c.clock_buffer v.slot v.there in
    let size : length c'.clock_buffer ≡ length c.clock_buffer =
      ap length v.buffer ∙ length-set c.clock_buffer v.slot [] in
    record {
      held = λ k.
          freed_held (Str-discrete k v.key) (Str-discrete k []) (count_key k c.clock_buffer)
            (count_key k c'.clock_buffer) (present k c.cache_map) (present k c'.cache_map)
            (counts k) (v.removed.keys k) (t.held k) (present-le-one k c.cache_map);
      known = λ k.
          freed_known (Str-discrete k v.key) (Str-discrete k []) (count_key k c.clock_buffer)
            (count_key k c'.clock_buffer) (present k c.cache_map) (present k c'.cache_map)
            (counts k) (v.removed.keys k) (t.known k);
      hand = omega (arith, v.hand, size);
      filled = λ h. omega (arith, v.hand, size);
    }

evict_slot_none :
    (buffer : List Str) (c : BenchmarkCache) → length buffer ≡ 0 → evict_slot buffer c ≡ some c
evict_slot_none [] c h = refl
evict_slot_none (k ∷ buffer) c h = absurd (omega arith)

ClockTracked-more : (c : BenchmarkCache) → ClockTracked 0 c → ClockTracked 1 c
ClockTracked-more c t = record {
  held = λ k. ground (arith, t.held k);
  known = t.known;
  hand = t.hand;
  filled = t.filled;
}

zero-or-suc : (n : ℕ) → (n ≡ 0) ⊎ (0 < n)
zero-or-suc zero = inl refl
zero-or-suc (suc n) = inr (omega arith)

evict_clock_lem :
    (c : BenchmarkCache)
    → Distinct Str-discrete c.cache_map
    → ClockTracked 0 c
    → (c' : BenchmarkCache) × (evict_clock c ≡ some c') × Evicted clock c c'
unfolding Ordered
evict_clock_lem c d t = elim (zero-or-suc (length c.clock_buffer)) [
  | inl h ↦ (
    c,
    unfold evict_clock in evict_slot_none c.clock_buffer c h,
    Evicted-none clock c d (ground (arith, t.filled)) (ClockTracked-more c t),
  )
  | inr h ↦
      let (c', ends, v) = evict_clock_ends c (record {
        held = λ k p. ground (arith, t.held k, present-le-one k c.cache_map);
        distinct = d;
        hand = omega (arith, t.hand);
      }) in
      (c', ends, Removed-Evicted clock c c' v.key v.removed (freed-ClockTracked c c' t v))
]

-- An eviction ends in each policy, and does what `Evicted` says.
pub evict_policy_lem :
    (p : EvictionPolicy) (c : BenchmarkCache)
    → Distinct Str-discrete c.cache_map
    → Ordered 0 p c
    → (c' : BenchmarkCache) × (evict_policy p c ≡ some c') × Evicted p c c'
unfolding evict_policy Ordered evict_lru evict_fifo evict_sieve
evict_policy_lem lru c d t = (evict_lru c, refl, evict_back_lem c.lru_order c refl d t)
evict_policy_lem fifo c d t = (evict_fifo c, refl, evict_front_lem c.fifo_queue c refl d t)
evict_policy_lem sieve c d t =
    let s = sweep c.sieve_order c.cache_map in
    (
      evict_sieve c,
      refl,
      after_sweep_lem s.victim s.order s.entries c t
          (sweep_lem c.sieve_order c.cache_map d (λ k. omega (arith, t k))),
    )
evict_policy_lem clock c d t = evict_clock_lem c d t

pub Ordered-more : (p : EvictionPolicy) (c : BenchmarkCache) → Ordered 0 p c → Ordered 1 p c
unfolding Ordered
Ordered-more lru c t = t
Ordered-more fifo c t = t
Ordered-more sieve c t = t
Ordered-more clock c t = ClockTracked-more c t
