-- ===== src/BenchmarkCache/Serve.antt =====
-- `get` of benchmark_cache.cpp, and runs of `get` and `put` from an empty cache.
use os_lab.Base.{
  ℕ, ◌+◌, ◌%◌, ◌≡◌, refl, sym, ap, ◌∙◌, inl, inr, Bool, true, false, Option, none, some, Str,
  Str-discrete, arith, Option-cases,
}
use os_lab.Dict.{find, put as map_put}
use os_lab.Keys.{present-found}
use os_lab.BenchmarkCache.{update_policy, get, put, u64_mod}
use os_lab.BenchmarkCache.Policies.{
  EvictionPolicy, lru, fifo, sieve, clock, BenchmarkCache, BenchmarkCacheEntry,
}
use os_lab.BenchmarkCache.Valid.{lookup, lookup-found, none-lookup, IsValid, Ordered}
use os_lab.BenchmarkCache.Touch.{put-Alike, update_policy_lem, Ordered-present}
use os_lab.BenchmarkCache.Put.{Stored, put_stores, Ordered-policy}

-- The result of `get` and the variable `value` after it, and the cache after it.
abbrev pub answer : Bool × Str × BenchmarkCache → Bool × Str
answer (ok, value, c) = (ok, value)

abbrev pub after : Bool × Str × BenchmarkCache → BenchmarkCache
after (ok, value, c) = c

-- What `get` should answer.
abbrev pub expected : Str → Option Str → Bool × Str
expected value none = (false, value)
expected value (some v) = (true, v)

pub record Served (key value : Str) (c : BenchmarkCache) (r : Bool × Str × BenchmarkCache)
    : Type 0 where
  pub answered : answer r ≡ expected value (lookup key c.cache_map)
  pub values : (k : Str) → lookup k (after r).cache_map ≡ lookup k c.cache_map
  pub valid : IsValid (after r)
  pub capacity : (after r).max_capacity ≡ c.max_capacity

module _ (key value : Str) (now : ℕ) (c : BenchmarkCache) where
  pub get-hit :
      (e : BenchmarkCacheEntry)
      → find Str-discrete key c.cache_map ≡ some e
      → get key value now c ≡ (
        true,
        e.value,
        update_policy c.policy key (record c {
          total_requests = (c.total_requests + 1) % u64_mod;
          hit_count = (c.hit_count + 1) % u64_mod;
          cache_map = map_put Str-discrete key (record e { access_time = now }) c.cache_map;
        }),
      )
  unfolding get update_policy
  get-hit e found = rw (get, found)

  pub get-miss :
      find Str-discrete key c.cache_map ≡ none
      → get key value now c ≡ (
        false,
        value,
        record c {
          total_requests = (c.total_requests + 1) % u64_mod;
          miss_count = (c.miss_count + 1) % u64_mod;
        },
      )
  unfolding get
  get-miss missing = rw (get, missing)

-- The orders say nothing of the counters.
Ordered-counters :
    (p : EvictionPolicy) (c : BenchmarkCache) (hits misses total : ℕ)
    → Ordered 0 p c
    → Ordered 0 p (record c { hit_count = hits; miss_count = misses; total_requests = total })
unfolding Ordered
Ordered-counters lru c hits misses total t = t
Ordered-counters fifo c hits misses total t = t
Ordered-counters sieve c hits misses total t = t
Ordered-counters clock c hits misses total t = record {
  held = t.held;
  known = t.known;
  hand = t.hand;
  filled = t.filled;
}

module _ (key value : Str) (now : ℕ) (c : BenchmarkCache) (v : IsValid c) where
  Served-miss : find Str-discrete key c.cache_map ≡ none → Served key value c (get key value now c)
  Served-miss missing = rw (get-miss key value now c missing) (record {
    answered = ap (expected value) (sym (none-lookup key c.cache_map missing));
    values = λ k. refl;
    valid = record {
      distinct = v.distinct;
      order =
          Ordered-counters c.policy c c.hit_count ((c.miss_count + 1) % u64_mod)
            ((c.total_requests + 1) % u64_mod) v.order;
      size = v.size;
    };
    capacity = refl;
  })

  Served-hit :
      (e : BenchmarkCacheEntry)
      → find Str-discrete key c.cache_map ≡ some e
      → Served key value c (get key value now c)
  Served-hit e found =
      let c₀ : BenchmarkCache = record c {
        total_requests = (c.total_requests + 1) % u64_mod;
        hit_count = (c.hit_count + 1) % u64_mod;
      } in
      let e' : BenchmarkCacheEntry = record e { access_time = now } in
      let m = map_put Str-discrete key e' c.cache_map in
      let a = put-Alike key e e' c.cache_map found refl in
      let o =
        Ordered-counters c.policy c ((c.hit_count + 1) % u64_mod) c.miss_count
          ((c.total_requests + 1) % u64_mod) v.order in
      let u =
        update_policy_lem c.policy key (record c₀ { cache_map = m })
          (a.keys key ∙ present-found key c.cache_map e found)
          (Ordered-present c.policy c₀ m a.keys a.size o) in
      let c' = update_policy c.policy key (record c₀ { cache_map = m }) in
      rw (get-hit key value now c e found) (record {
        answered = ap (expected value) (sym (lookup-found key e c.cache_map found));
        values = λ k. u.alike.values k ∙ a.values k;
        valid = record {
          distinct = u.alike.distinct (a.distinct v.distinct);
          order = Ordered-policy 0 c.policy c'.policy c' u.policy u.order;
          size = omega (arith, u.alike.size, a.size, v.size, u.capacity);
        };
        capacity = u.capacity;
      })

-- In a valid cache `get` returns `true` and writes the value if the key is there, else it returns
-- `false` and writes nothing; it changes the value of no key, and the cache stays valid.
pub get_lem :
    (key value : Str) (now : ℕ) (c : BenchmarkCache)
    → IsValid c
    → Served key value c (get key value now c)
get_lem key value now c v = elim (Option-cases (find Str-discrete key c.cache_map)) [
  | inl missing ↦ Served-miss key value now c v missing
  | inr (e, found) ↦ Served-hit key value now c v e found
]

lookup-Stored :
    (key value : Str) (c c' : BenchmarkCache)
    → Stored key value c c'
    → lookup key c'.cache_map ≡ some value
lookup-Stored key value c c' s = ground (arith, s.values key)

-- In a valid cache `put` returns, and a `get` of the same key right after it returns `true` and
-- the value that was put.
pub get-put :
    (key value default : Str) (now later : ℕ) (c : BenchmarkCache)
    → IsValid c
    → (c' : BenchmarkCache) × (put key value now c ≡ some (true, c'))
      × (answer (get key default later c') ≡ (true, value))
get-put key value default now later c v =
    let (c', returns, s) = put_stores key value now c v in
    (
      c',
      returns,
      (get_lem key default later c' s.valid).answered
          ∙ ap (expected default) (lookup-Stored key value c c' s),
    )
