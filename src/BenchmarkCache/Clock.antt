-- ===== src/BenchmarkCache/Clock.antt =====
-- The loop of `evict_clock` of benchmark_cache.cpp, which has no bound in the source: each round
-- but the last takes a reference bit away.
use os_lab.Base.{
  ℕ, zero, suc, ◌+◌, ◌%◌, ◌≤◌, ◌<◌, ◌≡◌, refl, sym, ap, ◌∙◌, inl, inr, true, false, some, List, [],
  ◌∷◌, Str, Str-discrete, ite, arith, length, get_elem?, set, bit, Bool-cases, Option-cases,
}
use os_lab.Dict.{
  find, erase, put, Distinct, put-Distinct, erase-Distinct, length-erase, length-put_old,
}
use os_lab.Dict.Sum.{sum, sum-put_old}
use os_lab.Keys.{count_key, present, present-erase, present-put, present-found}
use os_lab.BenchmarkCache.Valid.{lookup, lookup-erase, lookup-put_same, Removed}
use os_lab.BenchmarkCache.Policies.{
  BenchmarkCacheEntry, BenchmarkCache, Entries, evicted, again, advance, clock_round, clock_loop,
  evict_clock, evict_slot,
}

pub count_key-set :
    (k x v : Str) (buffer : List Str) (i : ℕ)
    → get_elem? buffer i ≡ some x
    → count_key k (set buffer i v) + ite (Str-discrete k x) 1 0
      ≡ count_key k buffer + ite (Str-discrete k v) 1 0
unfolding count_key
count_key-set k x v [] i h = cc
count_key-set k x v (y ∷ buffer) zero h = ground arith
count_key-set k x v (y ∷ buffer) (suc i) h = omega (arith, count_key-set k x v buffer i h)

pub count_key-get_elem? :
    (x : Str) (buffer : List Str) (i : ℕ) → get_elem? buffer i ≡ some x → 0 < count_key x buffer
unfolding count_key
count_key-get_elem? x [] i h = cc
count_key-get_elem? x (y ∷ buffer) zero h = ground arith
count_key-get_elem? x (y ∷ buffer) (suc i) h = omega (arith, count_key-get_elem? x buffer i h)

get_elem?-lt {ℓ} :
    {A : Type ℓ} (xs : List A) (i : ℕ) → i < length xs → (x : A) × (get_elem? xs i ≡ some x)
get_elem?-lt [] i h = absurd (omega arith)
get_elem?-lt (x ∷ xs) zero h = (x, refl)
get_elem?-lt (x ∷ xs) (suc i) h = get_elem?-lt xs i (omega arith)

abbrev referenced : BenchmarkCacheEntry → ℕ
referenced e = bit e.reference_bit

sum-referenced-le : (m : Entries) → sum referenced m ≤ length m
unfolding sum
sum-referenced-le [] = omega arith
sum-referenced-le ((k, e) ∷ m) = ground (arith, sum-referenced-le m)

-- All slots hold keys of the map, and the hand is at one of them.
pub record Turning (c : BenchmarkCache) : Type 0 where
  pub held : (k : Str) → 0 < count_key k c.clock_buffer → present k c.cache_map ≡ 1
  pub distinct : Distinct Str-discrete c.cache_map
  pub hand : c.clock_hand < length c.clock_buffer

pub record ClockEvicted (c c' : BenchmarkCache) : Type 0 where
  pub key : Str
  pub slot : ℕ
  pub there : get_elem? c.clock_buffer slot ≡ some key
  pub buffer : c'.clock_buffer ≡ set c.clock_buffer slot []
  pub hand : c'.clock_hand < length c.clock_buffer
  pub removed : Removed c c' key

mod-lt : (a n : ℕ) → 0 < n → a % n < n
mod-lt a n h = omega arith

module _ (c : BenchmarkCache) (t : Turning c) (key : Str) (e : BenchmarkCacheEntry)
    (at : get_elem? c.clock_buffer c.clock_hand ≡ some key)
    (found : find Str-discrete key c.cache_map ≡ some e) where
  -- The round of a key without its reference bit.
  taken : ClockEvicted c (record c {
    cache_map = erase Str-discrete key c.cache_map;
    clock_buffer = set c.clock_buffer c.clock_hand [];
  })
  taken = record {
    key = key;
    slot = c.clock_hand;
    there = at;
    buffer = refl;
    hand = t.hand;
    removed = record {
      keys = λ k. present-erase k key c.cache_map t.distinct;
      values = λ k. lookup-erase k key c.cache_map t.distinct;
      distinct = erase-Distinct Str-discrete key c.cache_map t.distinct;
      size = length-erase Str-discrete key e c.cache_map found;
      policy = refl;
      capacity = refl;
    };
  }

  abbrev spared : BenchmarkCache
  spared = advance (record c {
    cache_map = put Str-discrete key (record e { reference_bit = false }) c.cache_map;
  })

  spared_keys : (k : Str) → present k spared.cache_map ≡ present k c.cache_map
  spared_keys k = ground (
    arith,
    present-put k key (record e { reference_bit = false }) c.cache_map,
    present-found key c.cache_map e found,
  )

  spared_values : (k : Str) → lookup k spared.cache_map ≡ lookup k c.cache_map
  spared_values k =
      lookup-put_same k key e (record e { reference_bit = false }) c.cache_map found refl

  spared-Turning : Turning spared
  spared-Turning = record {
    held = λ k h. omega (arith, t.held k h, spared_keys k);
    distinct =
        put-Distinct Str-discrete key (record e { reference_bit = false }) c.cache_map t.distinct;
    hand = mod-lt (c.clock_hand + 1) (length c.clock_buffer) (omega (arith, t.hand));
  }

  spared_referenced :
      e.reference_bit ≡ true → sum referenced spared.cache_map + 1 ≡ sum referenced c.cache_map
  spared_referenced h = omega (
    arith,
    sum-put_old Str-discrete referenced key (record e { reference_bit = false }) e c.cache_map
        found,
    ap bit h,
  )

  spared-ClockEvicted : (c' : BenchmarkCache) → ClockEvicted spared c' → ClockEvicted c c'
  spared-ClockEvicted c' v = record {
    key = v.key;
    slot = v.slot;
    there = v.there;
    buffer = v.buffer;
    hand = v.hand;
    removed = record {
      keys = λ k. ground (arith, v.removed.keys k, spared_keys k);
      values = λ k. rw (sym (spared_values k)) (v.removed.values k);
      distinct = v.removed.distinct;
      size =
          v.removed.size
          ∙ length-put_old Str-discrete key (record e { reference_bit = false }) e c.cache_map
              found;
      policy = v.removed.policy;
      capacity = v.removed.capacity;
    };
  }

module _ (c : BenchmarkCache) (key : Str) (e : BenchmarkCacheEntry)
    (found : find Str-discrete key c.cache_map ≡ some e) where
  clock_round_off :
      e.reference_bit ≡ false
      → clock_round key c
        ≡ evicted (record c {
          cache_map = erase Str-discrete key c.cache_map;
          clock_buffer = set c.clock_buffer c.clock_hand [];
        })
  unfolding clock_round
  clock_round_off off = rw (clock_round, found, off)

  clock_round_on :
      e.reference_bit ≡ true
      → clock_round key c
        ≡ again (
            advance (record c {
              cache_map = put Str-discrete key (record e { reference_bit = false }) c.cache_map;
            }))
  unfolding clock_round
  clock_round_on on = rw (clock_round, found, on)

pub clock_loop_evicted :
    (fuel : ℕ) (c c' : BenchmarkCache) (key : Str)
    → get_elem? c.clock_buffer c.clock_hand ≡ some key
    → clock_round key c ≡ evicted c'
    → clock_loop (suc fuel) c ≡ some c'
unfolding clock_loop
clock_loop_evicted fuel c c' key at h = rw (clock_loop, at, h)

pub clock_loop_again :
    (fuel : ℕ) (c c' : BenchmarkCache) (key : Str)
    → get_elem? c.clock_buffer c.clock_hand ≡ some key
    → clock_round key c ≡ again c'
    → clock_loop (suc fuel) c ≡ clock_loop fuel c'
unfolding clock_loop
clock_loop_again fuel c c' key at h = rw (clock_loop, at, h)

-- With more fuel than there are reference bits the loop finds a key to evict.
clock_loop_lem :
    (fuel : ℕ) (c : BenchmarkCache)
    → Turning c
    → sum referenced c.cache_map < fuel
    → (c' : BenchmarkCache) × (clock_loop fuel c ≡ some c') × ClockEvicted c c'
unfolding clock_loop
clock_loop_lem zero c t h = absurd (omega arith)
clock_loop_lem (suc fuel) c t h =
    let (key, at) = get_elem?-lt c.clock_buffer c.clock_hand t.hand in
    let there : present key c.cache_map ≡ 1 =
      t.held key (count_key-get_elem? key c.clock_buffer c.clock_hand at) in
    elim (Option-cases (find Str-discrete key c.cache_map)) [
      | inl e ↦ absurd (unfold present in ground arith)
      | inr (e, found) ↦ elim (Bool-cases e.reference_bit) [
        | inr off ↦ (
          record c {
            cache_map = erase Str-discrete key c.cache_map;
            clock_buffer = set c.clock_buffer c.clock_hand [];
          },
          clock_loop_evicted fuel c
              (record c {
                cache_map = erase Str-discrete key c.cache_map;
                clock_buffer = set c.clock_buffer c.clock_hand [];
              })
              key at (clock_round_off c key e found off),
          taken c t key e at found,
        )
        | inl on ↦
            let next = spared c t key e at found in
            let (c', ends, v) =
              clock_loop_lem fuel next (spared-Turning c t key e at found)
                (omega (arith, spared_referenced c t key e at found on)) in
            (
              c',
              clock_loop_again fuel c next key at (clock_round_on c key e found on) ∙ ends,
              spared-ClockEvicted c t key e at found c' v,
            )
      ]
    ]

evict_slot_lem :
    (buffer : List Str) (c : BenchmarkCache)
    → 0 < length buffer
    → evict_slot buffer c ≡ clock_loop (suc (length c.cache_map)) c
evict_slot_lem [] c h = absurd (omega arith)
evict_slot_lem (k ∷ buffer) c h = refl

-- With the hand in the buffer and no slot whose key is not in the map, the loop ends.
pub evict_clock_ends :
    (c : BenchmarkCache)
    → Turning c
    → (c' : BenchmarkCache) × (evict_clock c ≡ some c') × ClockEvicted c c'
unfolding evict_clock
evict_clock_ends c t =
    let (c', ends, v) =
      clock_loop_lem (suc (length c.cache_map)) c t
        (omega (arith, sum-referenced-le c.cache_map)) in
    (c', evict_slot_lem c.clock_buffer c (omega (arith, t.hand)) ∙ ends, v)
