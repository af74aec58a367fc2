-- ===== src/BenchmarkCache/Valid.antt =====
-- The states in which a `BenchmarkCache` of benchmark_cache.cpp is between two calls, and in which
-- an eviction leaves it. The empty text marks a free slot of CLOCK, so there the key "" may have
-- lost its slot.
use os_lab.Base.{
  ℕ, ◌+◌, ◌-◌, ◌≤◌, ◌<◌, ◌≡◌, Option, none, some, List, [], Str, Str-discrete, ite, arith, length,
}
use os_lab.Dict.{find, erase, put, Distinct, find-erase, find-put}
use os_lab.Keys.{count_key, present}
use os_lab.BenchmarkCache.Policies.{
  EvictionPolicy, lru, fifo, sieve, clock, BenchmarkCacheEntry, BenchmarkCache, Entries,
}

-- The value of a key.
unfoldable pub lookup : Str → Entries → Option Str
lookup k m = elim (find Str-discrete k m) [ none ↦ none | some e ↦ some e.value ]

pub none-lookup : (k : Str) (m : Entries) → find Str-discrete k m ≡ none → lookup k m ≡ none
unfolding lookup
none-lookup k m h = rw (lookup, h)

pub lookup-found :
    (k : Str) (e : BenchmarkCacheEntry) (m : Entries)
    → find Str-discrete k m ≡ some e
    → lookup k m ≡ some e.value
unfolding lookup
lookup-found k e m h = rw (lookup, h)

pub lookup-none : (k : Str) (m : Entries) → lookup k m ≡ none → find Str-discrete k m ≡ none
unfolding lookup
lookup-none k m h = ground arith

pub lookup-put :
    (k key : Str) (e : BenchmarkCacheEntry) (m : Entries)
    → lookup k (put Str-discrete key e m) ≡ ite (Str-discrete k key) (some e.value) (lookup k m)
unfolding lookup
lookup-put k key e m = ground (arith, find-put Str-discrete key k e m)

pub lookup-erase :
    (k key : Str) (m : Entries)
    → Distinct Str-discrete m
    → lookup k (erase Str-discrete key m) ≡ ite (Str-discrete k key) none (lookup k m)
unfolding lookup
lookup-erase k key m d = ground (arith, find-erase Str-discrete key k m d)

-- A new entry with the value of the old one.
pub lookup-put_same :
    (k key : Str) (e e' : BenchmarkCacheEntry) (m : Entries)
    → find Str-discrete key m ≡ some e
    → e'.value ≡ e.value
    → lookup k (put Str-discrete key e' m) ≡ lookup k m
unfolding lookup
lookup-put_same k key e e' m h same = ground (arith, find-put Str-discrete key k e' m)

-- What an eviction leaves of a cache: one key less, and what else it did not change.
pub record Removed (c c' : BenchmarkCache) (key : Str) : Type 0 where
  pub keys : (k : Str) → present k c'.cache_map ≡ ite (Str-discrete k key) 0 (present k c.cache_map)
  pub values :
      (k : Str) → lookup k c'.cache_map ≡ ite (Str-discrete k key) none (lookup k c.cache_map)
  pub distinct : Distinct Str-discrete c'.cache_map
  pub size : length c'.cache_map + 1 ≡ length c.cache_map
  pub policy : c'.policy ≡ c.policy
  pub capacity : c'.max_capacity ≡ c.max_capacity

-- An order that holds each key of the map once and no other.
abbrev pub Tracked : List Str → Entries → Type 0
Tracked order m = (k : Str) → count_key k order ≡ present k m

-- The same of the slots, where `free` more of them may be free.
pub record ClockTracked (free : ℕ) (c : BenchmarkCache) : Type 0 where
  pub held :
      (k : Str)
      → count_key k c.clock_buffer ≤ present k c.cache_map + ite (Str-discrete k []) free 0
  pub known :
      (k : Str) → present k c.cache_map ≤ count_key k c.clock_buffer + ite (Str-discrete k []) 1 0
  pub hand : c.clock_hand < 1 + (length c.clock_buffer - 1)
  pub filled : 0 < length c.cache_map → 0 < length c.clock_buffer

unfoldable pub Ordered : ℕ → EvictionPolicy → BenchmarkCache → Type 0
Ordered free lru c = Tracked c.lru_order c.cache_map
Ordered free fifo c = Tracked c.fifo_queue c.cache_map
Ordered free sieve c = Tracked c.sieve_order c.cache_map
Ordered free clock c = ClockTracked free c

-- Between two calls. A cache of capacity 0 holds one entry.
pub record IsValid (c : BenchmarkCache) : Type 0 where
  pub distinct : Distinct Str-discrete c.cache_map
  pub order : Ordered 0 c.policy c
  pub size : length c.cache_map ≤ 1 + (c.max_capacity - 1)

-- With room for an entry.
pub record HasRoom (c : BenchmarkCache) : Type 0 where
  pub distinct : Distinct Str-discrete c.cache_map
  pub order : Ordered 1 c.policy c
  pub room : length c.cache_map < 1 + (c.max_capacity - 1)
