-- ===== src/BenchmarkCache/Insert.antt =====
-- What `put` of benchmark_cache.cpp does once there is room for a new entry.
use os_lab.Base.{
  ℕ, ◌+◌, ◌-◌, ◌≤◌, ◌≡◌, refl, ◌∙◌, true, false, none, some, [], ◌∷◌, Str, Str-discrete, ite, arith,
  length,
}
use os_lab.Dict.{find, put, Distinct, put-Distinct, length-put_new}
use os_lab.Keys.{count_key, count_key-append, present, present-put, present-le-one}
use os_lab.BenchmarkCache.{add_policy, insert_entry}
use os_lab.BenchmarkCache.Policies.{
  EvictionPolicy, lru, fifo, sieve, clock, BenchmarkCache, BenchmarkCacheEntry, Entries, fill_slot,
  add_lru, add_fifo, add_sieve, add_clock,
}
use os_lab.BenchmarkCache.Valid.{lookup, lookup-put, Tracked, ClockTracked, Ordered}
use os_lab.BenchmarkCache.Touch.{
  Alike-refl, update_entry-Alike, Touched, count_key-fill_slot, length-fill_slot,
  length-fill_slot_positive,
}

-- The map `m` is `m₀` and one key more.
abbrev Joined : Str → Entries → Entries → Type 0
Joined key m₀ m = (k : Str) → present k m ≡ present k m₀ + ite (Str-discrete k key) 1 0

abbrev free_slot : Str → ℕ
free_slot k = ite (Str-discrete k []) 1 0

module _ {P Q : Type 0} (same : Dec P) (free : Dec Q) (n n' p p' : ℕ)
    (counts : n' ≡ (n - ite free 1 0) + ite same 1 0) (keys : p' ≡ p + ite same 1 0) where
  filled_held : n ≤ p + ite free 1 0 → n' ≤ p' + ite free 0 0
  filled_held h = ground arith

  filled_known : p ≤ 1 → p ≤ n + ite free 1 0 → p' ≤ n' + ite free 1 0
  filled_known one h = ground arith

-- A new key in the orders of a cache whose map holds it already.
module _ (key : Str) (c : BenchmarkCache) (m₀ : Entries) (join : Joined key m₀ c.cache_map) where
  add_lru_lem : Tracked c.lru_order m₀ → Touched lru c (add_lru key c)
  unfolding Ordered add_lru count_key
  add_lru_lem t = record {
    alike = Alike-refl c.cache_map;
    order = λ k. omega (arith, t k, join k);
    policy = refl;
    capacity = refl;
  }

  add_fifo_lem : Tracked c.fifo_queue m₀ → Touched fifo c (add_fifo key c)
  unfolding Ordered add_fifo count_key
  add_fifo_lem t = record {
    alike = Alike-refl c.cache_map;
    order = λ k. omega (arith, t k, join k, count_key-append k c.fifo_queue (key ∷ []));
    policy = refl;
    capacity = refl;
  }

  add_sieve_lem : Tracked c.sieve_order m₀ → Touched sieve c (add_sieve key c)
  unfolding Ordered add_sieve count_key
  add_sieve_lem t =
      let a = update_entry-Alike key (λ e. record e { visited = false }) c.cache_map (λ e. refl) in
      record {
        alike = a;
        order =
            λ k. omega (arith, t k, join k, a.keys k, count_key-append k c.sieve_order (key ∷ []));
        policy = refl;
        capacity = refl;
      }

  add_clock_lem : ClockTracked 1 (record c { cache_map = m₀ }) → Touched clock c (add_clock key c)
  unfolding Ordered add_clock count_key
  add_clock_lem t =
      let a =
        update_entry-Alike key (λ e. record e { reference_bit = true }) c.cache_map (λ e. refl) in
      record {
        alike = a;
        order = record {
          held = λ k.
              filled_held (Str-discrete k key) (Str-discrete k []) (count_key k c.clock_buffer)
                (count_key k (fill_slot key c.clock_buffer)) (present k m₀)
                (present k (add_clock key c).cache_map) (count_key-fill_slot k key c.clock_buffer)
                (a.keys k ∙ join k) (t.held k);
          known = λ k.
              filled_known (Str-discrete k key) (Str-discrete k []) (count_key k c.clock_buffer)
                (count_key k (fill_slot key c.clock_buffer)) (present k m₀)
                (present k (add_clock key c).cache_map) (count_key-fill_slot k key c.clock_buffer)
                (a.keys k ∙ join k) (present-le-one k m₀) (t.known k);
          hand = omega (arith, t.hand, length-fill_slot key c.clock_buffer);
          filled = λ h. length-fill_slot_positive key c.clock_buffer;
        };
        policy = refl;
        capacity = refl;
      }

  add_policy_lem :
      (p : EvictionPolicy)
      → Ordered 1 p (record c { cache_map = m₀ })
      → Touched p c (add_policy p key c)
  unfolding add_policy Ordered
  add_policy_lem lru t = add_lru_lem t
  add_policy_lem fifo t = add_fifo_lem t
  add_policy_lem sieve t = add_sieve_lem t
  add_policy_lem clock t = add_clock_lem t

-- What a new entry adds.
pub record Inserted (key value : Str) (c c' : BenchmarkCache) : Type 0 where
  pub values :
      (k : Str)
      → lookup k c'.cache_map ≡ ite (Str-discrete k key) (some value) (lookup k c.cache_map)
  pub distinct : Distinct Str-discrete c'.cache_map
  pub size : length c'.cache_map ≡ length c.cache_map + 1
  pub order : Ordered 0 c.policy c'
  pub policy : c'.policy ≡ c.policy
  pub capacity : c'.max_capacity ≡ c.max_capacity

pub insert_entry_lem :
    (key value : Str) (now : ℕ) (c : BenchmarkCache)
    → Distinct Str-discrete c.cache_map
    → Ordered 1 c.policy c
    → find Str-discrete key c.cache_map ≡ none
    → Inserted key value c (insert_entry key value now c)
unfolding insert_entry
insert_entry_lem key value now c d t new =
    let e : BenchmarkCacheEntry = record {
      key = key;
      value = value;
      access_time = now;
      insert_time = now;
      visited = false;
      reference_bit = true;
    } in
    let c₁ : BenchmarkCache = record c { cache_map = put Str-discrete key e c.cache_map } in
    let u =
      add_policy_lem key c₁ c.cache_map
        (λ k. unfold present in ground (arith, present-put k key e c.cache_map)) c.policy t in
    record {
      values = λ k. u.alike.values k ∙ lookup-put k key e c.cache_map;
      distinct = u.alike.distinct (put-Distinct Str-discrete key e c.cache_map d);
      size = u.alike.size ∙ length-put_new Str-discrete key e c.cache_map new;
      order = u.order;
      policy = u.policy;
      capacity = u.capacity;
    }
