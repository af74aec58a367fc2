-- ===== src/BenchmarkCache/Touch.antt =====
-- What a use of a key and a new key do to the orders of benchmark_cache.cpp.
use os_lab.Base.{
  ◌+◌, ◌-◌, ◌≤◌, ◌<◌, ◌≡◌, refl, sym, ap, ◌∙◌, inl, inr, true, some, List, [], ◌∷◌, Str,
  Str-discrete, ite, arith, length, Option-cases,
}
use os_lab.Dict.{find, put, Distinct, put-Distinct, length-put_old}
use os_lab.Keys.{count_key, count_key-remove_key, present, present-put, present-found}
use os_lab.BenchmarkCache.{update_policy}
use os_lab.BenchmarkCache.Policies.{
  EvictionPolicy, lru, fifo, sieve, clock, BenchmarkCache, BenchmarkCacheEntry, Entries,
  update_entry, fill_slot, update_lru, update_fifo, update_sieve, update_clock,
}
use os_lab.BenchmarkCache.Valid.{lookup, lookup-put_same, ClockTracked, Ordered}

-- Entries that differ in their times and flags alone.
pub record Alike (m m' : Entries) : Type 0 where
  pub keys : (k : Str) → present k m' ≡ present k m
  pub values : (k : Str) → lookup k m' ≡ lookup k m
  pub distinct : Distinct Str-discrete m → Distinct Str-discrete m'
  pub size : length m' ≡ length m

pub Alike-refl : (m : Entries) → Alike m m
Alike-refl m = record { keys = λ k. refl; values = λ k. refl; distinct = λ d. d; size = refl }

pub put-Alike :
    (key : Str) (e e' : BenchmarkCacheEntry) (m : Entries)
    → find Str-discrete key m ≡ some e
    → e'.value ≡ e.value
    → Alike m (put Str-discrete key e' m)
put-Alike key e e' m found same = record {
  keys = λ k. ground (arith, present-put k key e' m, present-found key m e found);
  values = λ k. lookup-put_same k key e e' m found same;
  distinct = λ d. put-Distinct Str-discrete key e' m d;
  size = length-put_old Str-discrete key e' e m found;
}

pub update_entry-Alike :
    (key : Str) (f : BenchmarkCacheEntry → BenchmarkCacheEntry) (m : Entries)
    → ((e : BenchmarkCacheEntry) → (f e).value ≡ e.value)
    → Alike m (update_entry key f m)
unfolding update_entry
update_entry-Alike key f m same = elim (Option-cases (find Str-discrete key m)) [
  | inl h ↦ rw (update_entry, h) (Alike-refl m)
  | inr (e, h) ↦ rw (update_entry, h) (put-Alike key e (f e) m h (same e))
]

-- What a call leaves of the rest of the cache.
pub record Touched (p : EvictionPolicy) (c c' : BenchmarkCache) : Type 0 where
  pub alike : Alike c.cache_map c'.cache_map
  pub order : Ordered 0 p c'
  pub policy : c'.policy ≡ c.policy
  pub capacity : c'.max_capacity ≡ c.max_capacity

Alike-ClockTracked :
    (c c' : BenchmarkCache)
    → Alike c.cache_map c'.cache_map
    → c'.clock_buffer ≡ c.clock_buffer
    → c'.clock_hand ≡ c.clock_hand
    → ClockTracked 0 c
    → ClockTracked 0 c'
Alike-ClockTracked c c' a b h t = record {
  held = λ k. omega (arith, t.held k, a.keys k, ap (count_key k) b);
  known = λ k. omega (arith, t.known k, a.keys k, ap (count_key k) b);
  hand = omega (arith, t.hand, ap length b, h);
  filled = λ p. ground (arith, t.filled, a.size, ap length b);
}

-- The orders say nothing of the values.
pub Ordered-present :
    (p : EvictionPolicy) (c : BenchmarkCache) (m : Entries)
    → ((k : Str) → present k m ≡ present k c.cache_map)
    → length m ≡ length c.cache_map
    → Ordered 0 p c
    → Ordered 0 p (record c { cache_map = m })
unfolding Ordered
Ordered-present lru c m h n t = λ k. t k ∙ sym (h k)
Ordered-present fifo c m h n t = λ k. t k ∙ sym (h k)
Ordered-present sieve c m h n t = λ k. t k ∙ sym (h k)
Ordered-present clock c m h n t = record {
  held = λ k. omega (arith, t.held k, h k);
  known = λ k. omega (arith, t.known k, h k);
  hand = t.hand;
  filled = λ p. omega (arith, t.filled (omega (arith, n, p)));
}

-- A use of a key of the map.
pub update_policy_lem :
    (p : EvictionPolicy) (key : Str) (c : BenchmarkCache)
    → present key c.cache_map ≡ 1
    → Ordered 0 p c
    → Touched p c (update_policy p key c)
unfolding update_policy Ordered update_lru update_fifo update_sieve update_clock count_key
update_policy_lem lru key c there t = record {
  alike = Alike-refl c.cache_map;
  order = λ k. ground (arith, count_key-remove_key k key c.lru_order, t k, there);
  policy = refl;
  capacity = refl;
}
update_policy_lem fifo key c there t = record {
  alike = Alike-refl c.cache_map;
  order = t;
  policy = refl;
  capacity = refl;
}
update_policy_lem sieve key c there t =
    let a = update_entry-Alike key (λ e. record e { visited = true }) c.cache_map (λ e. refl) in
    record { alike = a; order = λ k. t k ∙ sym (a.keys k); policy = refl; capacity = refl }
update_policy_lem clock key c there t =
    let a =
      update_entry-Alike key (λ e. record e { reference_bit = true }) c.cache_map (λ e. refl) in
    record {
      alike = a;
      order = Alike-ClockTracked c (update_clock key c) a refl refl t;
      policy = refl;
      capacity = refl;
    }

-- The slot for a new key.
pub count_key-fill_slot :
    (k key : Str) (buffer : List Str)
    → count_key k (fill_slot key buffer)
      ≡ (count_key k buffer - ite (Str-discrete k []) 1 0) + ite (Str-discrete k key) 1 0
unfolding fill_slot count_key
count_key-fill_slot k key [] = ground arith
count_key-fill_slot k key ([] ∷ buffer) = ground arith
count_key-fill_slot k key ((x ∷ s) ∷ buffer) = ground (arith, count_key-fill_slot k key buffer)

pub length-fill_slot :
    (key : Str) (buffer : List Str) → length buffer ≤ length (fill_slot key buffer)
unfolding fill_slot
length-fill_slot key [] = omega arith
length-fill_slot key ([] ∷ buffer) = omega arith
length-fill_slot key ((x ∷ s) ∷ buffer) = omega (arith, length-fill_slot key buffer)

pub length-fill_slot_positive : (key : Str) (buffer : List Str) → 0 < length (fill_slot key buffer)
unfolding fill_slot
length-fill_slot_positive key [] = omega arith
length-fill_slot_positive key ([] ∷ buffer) = omega arith
length-fill_slot_positive key ((x ∷ s) ∷ buffer) = omega arith
