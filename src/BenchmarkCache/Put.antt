-- ===== src/BenchmarkCache/Put.antt =====
-- `put` and `get` of benchmark_cache.cpp against a map from keys to values, in all four policies.
use os_lab.Base.{
  ℕ, ◌≤◌, ◌<◌, ◌≡◌, refl, ap, ◌∙◌, ◌⊎◌, inl, inr, true, false, Option, none, some, Str,
  Str-discrete, ite, leb, arith, length, Option-cases, Bool-cases,
}
use os_lab.Dict.{find, put-Distinct, length-put_old, put as map_put}
use os_lab.Keys.{present, present-found, present-put}
use os_lab.BenchmarkCache.{update_policy, evict_policy, insert_entry, put}
use os_lab.BenchmarkCache.Policies.{EvictionPolicy, BenchmarkCache, BenchmarkCacheEntry}
use os_lab.BenchmarkCache.Valid.{lookup, lookup-put, lookup-none, none-lookup, IsValid, Ordered}
use os_lab.BenchmarkCache.Sieve.{without, without-none}
use os_lab.BenchmarkCache.Touch.{update_policy_lem, Ordered-present}
use os_lab.BenchmarkCache.Evict.{Evicted, Ordered-more, evict_policy_lem}
use os_lab.BenchmarkCache.Insert.{insert_entry_lem}

-- What a `put` does: at most one other key leaves, and none if there is room or the key is there.
pub record Stored (key value : Str) (c c' : BenchmarkCache) : Type 0 where
  pub victim : Option Str
  pub values :
      (k : Str)
      → lookup k c'.cache_map
        ≡ ite (Str-discrete k key) (some value) (without victim k (lookup k c.cache_map))
  pub spared : (present key c.cache_map ≡ 1) ⊎ (length c.cache_map < c.max_capacity) → victim ≡ none
  pub valid : IsValid c'
  pub policy : c'.policy ≡ c.policy
  pub capacity : c'.max_capacity ≡ c.max_capacity

pub Ordered-policy :
    (free : ℕ) (p q : EvictionPolicy) (c : BenchmarkCache)
    → q ≡ p
    → Ordered free p c
    → Ordered free q c
Ordered-policy free p q c h o = rw h o

-- An eviction brings no key in.
pub still_new :
    (key : Str) (p : EvictionPolicy) (c c' : BenchmarkCache)
    → Evicted p c c'
    → find Str-discrete key c.cache_map ≡ none
    → find Str-discrete key c'.cache_map ≡ none
still_new key p c c' e new = lookup-none key c'.cache_map (
    e.values key
    ∙ ap (without e.victim key) (none-lookup key c.cache_map new)
    ∙ without-none e.victim key)

pub put-found :
    (key value : Str) (now : ℕ) (c : BenchmarkCache) (e : BenchmarkCacheEntry)
    → find Str-discrete key c.cache_map ≡ some e
    → put key value now c
      ≡ some (
        true,
        update_policy c.policy key (record c {
          cache_map =
              map_put Str-discrete key (record e { value = value; access_time = now }) c.cache_map;
        }),
      )
unfolding put update_policy
put-found key value now c e found = rw (put, found)

pub put-room :
    (key value : Str) (now : ℕ) (c : BenchmarkCache)
    → find Str-discrete key c.cache_map ≡ none
    → leb c.max_capacity (length c.cache_map) ≡ false
    → put key value now c ≡ some (true, insert_entry key value now c)
unfolding put insert_entry
put-room key value now c new room = rw (put, new, room)

pub put-full :
    (key value : Str) (now : ℕ) (c c' : BenchmarkCache)
    → find Str-discrete key c.cache_map ≡ none
    → leb c.max_capacity (length c.cache_map) ≡ true
    → evict_policy c.policy c ≡ some c'
    → put key value now c ≡ some (true, insert_entry key value now c')
unfolding put insert_entry
put-full key value now c c' new full h = rw (put, new, full, h)

-- A key that is there.
module _ (key value : Str) (now : ℕ) (c : BenchmarkCache) (v : IsValid c) where
  put_found :
      (e : BenchmarkCacheEntry)
      → find Str-discrete key c.cache_map ≡ some e
      → (c' : BenchmarkCache) × (put key value now c ≡ some (true, c')) × Stored key value c c'
  unfolding without
  put_found e found =
      let e' : BenchmarkCacheEntry = record e { value = value; access_time = now } in
      let m = map_put Str-discrete key e' c.cache_map in
      let c₁ : BenchmarkCache = record c { cache_map = m } in
      let there : present key c.cache_map ≡ 1 = present-found key c.cache_map e found in
      let keys : (k : Str) → present k m ≡ present k c.cache_map =
        λ k. ground (arith, present-put k key e' c.cache_map, there) in
      let size : length m ≡ length c.cache_map =
        length-put_old Str-discrete key e' e c.cache_map found in
      let u =
        update_policy_lem c.policy key c₁ (keys key ∙ there)
          (Ordered-present c.policy c m keys size v.order) in
      let c' = update_policy c.policy key c₁ in
      (
        c',
        put-found key value now c e found,
        record {
          victim = none;
          values = λ k. u.alike.values k ∙ lookup-put k key e' c.cache_map;
          spared = λ _. refl;
          valid = record {
            distinct = u.alike.distinct (put-Distinct Str-discrete key e' c.cache_map v.distinct);
            order = Ordered-policy 0 c.policy c'.policy c' u.policy u.order;
            size = omega (arith, u.alike.size, size, v.size, u.capacity);
          };
          policy = u.policy;
          capacity = u.capacity;
        },
      )

  put_room :
      find Str-discrete key c.cache_map ≡ none
      → leb c.max_capacity (length c.cache_map) ≡ false
      → (c' : BenchmarkCache) × (put key value now c ≡ some (true, c')) × Stored key value c c'
  unfolding without
  put_room new room =
      let c' = insert_entry key value now c in
      let n = insert_entry_lem key value now c v.distinct (Ordered-more c.policy c v.order) new in
      let less : length c.cache_map < c.max_capacity = ground (arith, room) in
      (
        c',
        put-room key value now c new room,
        record {
          victim = none;
          values = n.values;
          spared = λ _. refl;
          valid = record {
            distinct = n.distinct;
            order = Ordered-policy 0 c.policy c'.policy c' n.policy n.order;
            size = omega (arith, n.size, less, n.capacity);
          };
          policy = n.policy;
          capacity = n.capacity;
        },
      )

  put_full :
      find Str-discrete key c.cache_map ≡ none
      → leb c.max_capacity (length c.cache_map) ≡ true
      → (c' : BenchmarkCache) × (put key value now c ≡ some (true, c')) × Stored key value c c'
  put_full new full =
      let (c₁, ends, e) = evict_policy_lem c.policy c v.distinct v.order in
      let n =
        insert_entry_lem key value now c₁ e.distinct
          (Ordered-policy 1 c.policy c₁.policy c₁ e.policy e.order)
          (still_new key c.policy c c₁ e new) in
      let c' = insert_entry key value now c₁ in
      let same = n.policy ∙ e.policy in
      let more : c.max_capacity ≤ length c.cache_map = ground (arith, full) in
      (
        c',
        put-full key value now c c₁ new full ends,
        record {
          victim = e.victim;
          values = λ k. n.values k ∙ ap (ite (Str-discrete k key) (some value)) (e.values k);
          spared = λ h. elim h [
            | inl there ↦ absurd (unfold present in ground arith)
            | inr less ↦ absurd (omega arith)
          ];
          valid = record {
            distinct = n.distinct;
            order = Ordered-policy 0 c₁.policy c'.policy c' n.policy n.order;
            size = omega (arith, n.size, e.size, v.size, n.capacity, e.capacity);
          };
          policy = same;
          capacity = n.capacity ∙ e.capacity;
        },
      )

-- In a valid cache of any policy `put` returns `true`; afterwards the key has the value, at most
-- one other key has left, none if the key was there or there was room, all others keep their
-- values, and the cache is valid again.
pub put_stores :
    (key value : Str) (now : ℕ) (c : BenchmarkCache)
    → IsValid c
    → (c' : BenchmarkCache) × (put key value now c ≡ some (true, c')) × Stored key value c c'
put_stores key value now c v = elim (Option-cases (find Str-discrete key c.cache_map)) [
  | inr (e, found) ↦ put_found key value now c v e found
  | inl new ↦ elim (Bool-cases (leb c.max_capacity (length c.cache_map))) [
    | inr room ↦ put_room key value now c v new room
    | inl full ↦ put_full key value now c v new full
  ]
]
