-- ===== src/BenchmarkCache.antt =====
-- `BenchmarkCache` of benchmark_cache.h and benchmark_cache.cpp: a cache of a given number of
-- entries with one of four eviction policies. `get` and `put` hold the mutex throughout, so each is
-- one step. `now` is what `steady_clock::now()` returns. The counters are `uint64_t` and wrap.
pub mod Policies
pub mod Valid
pub mod Clock
pub mod Orders
pub mod Sieve
pub mod Marks
pub mod Evict
pub mod Touch
pub mod Insert
pub mod Put
pub mod Serve
pub mod Run
pub mod Counters
pub mod Disciplines
pub mod References
pub mod Replays
pub mod SieveMarks
pub mod SieveReplays
mod Tests
use os_lab.Base.{
  ℕ, zero, suc, ◌+◌, ◌%◌, ◌^◌, Bool, true, false, Option, none, some, List, [], ◌∷◌, ◌++◌, Str,
  Str-discrete, ite, ltb, leb, ◌==◌, if◌then◌else◌, length, get_elem?, set,
}
use os_lab.Dict.{find, put as map_put}
use Policies.{
  EvictionPolicy, lru, fifo, sieve, clock, BenchmarkCacheEntry, BenchmarkCache, evict_lru,
  evict_fifo, evict_sieve, evict_clock, update_lru, add_lru, update_fifo, add_fifo, update_sieve,
  add_sieve, update_clock, add_clock,
}

abbrev pub u64_mod : ℕ
u64_mod = 2 ^ 64

-- The constructor.
unfoldable pub create : ℕ → EvictionPolicy → BenchmarkCache
create capacity policy = record {
  max_capacity = capacity;
  policy = policy;
  cache_map = [];
  hit_count = 0;
  miss_count = 0;
  total_requests = 0;
  lru_order = [];
  fifo_queue = [];
  sieve_order = [];
  clock_buffer = [];
  clock_hand = 0;
}

-- The `switch` on the policy after a use of a key that is there.
unfoldable pub update_policy : EvictionPolicy → Str → BenchmarkCache → BenchmarkCache
unfolding update_lru update_fifo update_sieve update_clock
update_policy lru key c = update_lru key c
update_policy fifo key c = c
update_policy sieve key c = update_sieve key c
update_policy clock key c = update_clock key c

-- The `switch` for an eviction. `none` is a run that does not end or leaves the buffer.
unfoldable pub evict_policy : EvictionPolicy → BenchmarkCache → Option BenchmarkCache
unfolding evict_lru evict_fifo evict_sieve evict_clock
evict_policy lru c = some (evict_lru c)
evict_policy fifo c = some (evict_fifo c)
evict_policy sieve c = some (evict_sieve c)
evict_policy clock c = evict_clock c

-- The `switch` after a new entry.
unfoldable pub add_policy : EvictionPolicy → Str → BenchmarkCache → BenchmarkCache
unfolding add_lru add_fifo add_sieve add_clock
add_policy lru key c = add_lru key c
add_policy fifo key c = add_fifo key c
add_policy sieve key c = add_sieve key c
add_policy clock key c = add_clock key c

-- The caller's variable `value` is written on a hit only.
unfoldable pub get : Str → Str → ℕ → BenchmarkCache → Bool × Str × BenchmarkCache
unfolding update_policy
get key value now c =
    let c₁ : BenchmarkCache = record c { total_requests = (c.total_requests + 1) % u64_mod } in
    elim (find Str-discrete key c.cache_map) [
      | some e ↦ (
        true,
        e.value,
        update_policy c.policy key (record c₁ {
          hit_count = (c.hit_count + 1) % u64_mod;
          cache_map = map_put Str-discrete key (record e { access_time = now }) c.cache_map;
        }),
      )
      | none ↦ (false, value, record c₁ { miss_count = (c.miss_count + 1) % u64_mod })
    ]

-- A new entry, once there is room.
unfoldable pub insert_entry : Str → Str → ℕ → BenchmarkCache → BenchmarkCache
unfolding add_policy
insert_entry key value now c = add_policy c.policy key (record c {
  cache_map =
      map_put Str-discrete key
        (record {
          key = key;
          value = value;
          access_time = now;
          insert_time = now;
          visited = false;
          reference_bit = true;
        })
        c.cache_map;
})

abbrev pub then_insert : Str → Str → ℕ → Option BenchmarkCache → Option (Bool × BenchmarkCache)
then_insert key value now none = none
then_insert key value now (some c) = some (true, insert_entry key value now c)

unfoldable pub put : Str → Str → ℕ → BenchmarkCache → Option (Bool × BenchmarkCache)
unfolding update_policy evict_policy insert_entry
put key value now c = elim (find Str-discrete key c.cache_map) [
  | some e ↦ some (
    true,
    update_policy c.policy key (record c {
      cache_map =
          map_put Str-discrete key (record e { value = value; access_time = now }) c.cache_map;
    }),
  )
  | none ↦
      then_insert key value now
        (if leb c.max_capacity (length c.cache_map) then evict_policy c.policy c else some c)
]

unfoldable pub get_current_size : BenchmarkCache → ℕ
get_current_size c = length c.cache_map

unfoldable pub reset_stats : BenchmarkCache → BenchmarkCache
reset_stats c = record c { hit_count = 0; miss_count = 0; total_requests = 0 }
