-- ===== src/BenchmarkCache/Disciplines.antt =====
-- Which keys the policies LRU and FIFO of benchmark_cache.cpp keep: the order of a policy after any
-- calls, against a reference that knows keys only.
use os_lab.Base.{
  ℕ, ◌+◌, ◌<◌, ◌≡◌, refl, sym, ap, subst, ◌∙◌, ◌%◌, Bool, true, false, none, some, List, [], ◌∷◌,
  Str, Str-discrete, ltb, leb, arith, length, if◌then◌else◌, Bool-cases, Option-cases, inl, inr,
}
use os_lab.Dict.{find, Distinct, put as map_put}
use os_lab.Keys.{remove_key, count_key, present, count_key-remove_key}
use os_lab.BenchmarkCache.{update_policy, evict_policy, add_policy, insert_entry, get, put, u64_mod}
use os_lab.BenchmarkCache.Policies.{EvictionPolicy, BenchmarkCache, Entries}
use os_lab.BenchmarkCache.Valid.{IsValid, Ordered, Tracked}
use os_lab.BenchmarkCache.Evict.{evict_policy_lem}
use os_lab.BenchmarkCache.Serve.{after, get-hit, get-miss}
use os_lab.BenchmarkCache.Put.{put-found, put-room, put-full}
use os_lab.BenchmarkCache.Run.{Request, get_request, put_request}

-- The keys of a map are as many as those of an order that tracks it.
length-remove_key :
    (key : Str) (order : List Str)
    → 0 < count_key key order
    → length (remove_key key order) + 1 ≡ length order
unfolding count_key remove_key
length-remove_key key [] h = absurd (omega arith)
length-remove_key key (k ∷ order) h = ground (arith, length-remove_key key order)

pub Tracked-length :
    (m : Entries) (order : List Str)
    → Distinct Str-discrete m
    → Tracked order m
    → length order ≡ length m
unfolding count_key present find
Tracked-length [] [] d t = refl
Tracked-length [] (k ∷ order) d t = absurd (ground (arith, t k))
Tracked-length ((k, e) ∷ m) order d t =
    let one : count_key k order ≡ 1 = ground (arith, t k) in
    let rest : Tracked (remove_key k order) m =
      λ j. ground (arith, t j, count_key-remove_key j k order) in
    omega (
      arith,
      Tracked-length m (remove_key k order) d.1 rest,
      length-remove_key k order (omega arith),
    )

-- What the reference knows of a policy: where its order stands, and what a use, an eviction and a
-- new key make of it.
pub record Discipline : Type 0 where
  pub policy : EvictionPolicy
  pub order : BenchmarkCache → List Str
  pub touch : Str → List Str → List Str
  pub drop : List Str → List Str
  pub add : Str → List Str → List Str
  pub update_lem :
      (key : Str) (c : BenchmarkCache) → order (update_policy policy key c) ≡ touch key (order c)
  pub evict_lem :
      (c c' : BenchmarkCache) → evict_policy policy c ≡ some c' → order c' ≡ drop (order c)
  pub add_lem :
      (key : Str) (c : BenchmarkCache) → order (add_policy policy key c) ≡ add key (order c)
  pub tracked : (c : BenchmarkCache) → Ordered 0 policy c → Tracked (order c) c.cache_map
  -- The order does not depend on the entries and the counters.
  pub entries_lem :
      (c : BenchmarkCache) (m : Entries) (hits misses total : ℕ)
      → order (record c {
        cache_map = m;
        hit_count = hits;
        miss_count = misses;
        total_requests = total;
      })
        ≡ order c

abbrev pub holds : Str → List Str → Bool
holds key order = ltb 0 (count_key key order)

-- The reference: the keys in the order of the policy, for a capacity.
module _ (d : Discipline) (capacity : ℕ) where
  abbrev pub expect : Request → List Str → List Str
  expect (get_request key now) keys = if holds key keys then d.touch key keys else keys
  expect (put_request key value now) keys =
      if holds key keys
      then d.touch key keys
      else if leb capacity (length keys)
      then d.add key (d.drop keys)
      else d.add key keys

  abbrev pub expect_all : List Request → List Str → List Str
  expect_all [] keys = keys
  expect_all (r ∷ requests) keys = expect_all requests (expect r keys)

pub holds-find-none :
    (key : Str) (order : List Str) (m : Entries)
    → Tracked order m
    → find Str-discrete key m ≡ none
    → holds key order ≡ false
unfolding present
holds-find-none key order m t h = ground (arith, t key)

pub holds-find-some :
    (key : Str) (order : List Str) (m : Entries) {e : _}
    → Tracked order m
    → find Str-discrete key m ≡ some e
    → holds key order ≡ true
unfolding present
holds-find-some key order m t h = ground (arith, t key)

module _ (d : Discipline) (c : BenchmarkCache) (v : IsValid c) (p : c.policy ≡ d.policy) where
  pub keys-Tracked : Tracked (d.order c) c.cache_map
  keys-Tracked = d.tracked c (subst (λ q. Ordered 0 q c) p v.order)

  get_missed :
      (key : Str) (now : ℕ)
      → find Str-discrete key c.cache_map ≡ none
      → d.order (after (get key [] now c)) ≡ d.order c
  get_missed key now h = rw (get-miss key [] now c h) (
      d.entries_lem c c.cache_map c.hit_count ((c.miss_count + 1) % u64_mod)
        ((c.total_requests + 1) % u64_mod))

  update_order :
      (key : Str) (m : Entries) (hits total : ℕ)
      → d.order (
          update_policy c.policy key
            (record c { cache_map = m; hit_count = hits; total_requests = total }))
        ≡ d.touch key (d.order c)
  update_order key m hits total =
      let c₁ = record c { cache_map = m; hit_count = hits; total_requests = total } in
      ap (λ q. d.order (update_policy q key c₁)) p
      ∙ d.update_lem key c₁
      ∙ ap (d.touch key) (d.entries_lem c m hits c.miss_count total)

  pub get_order :
      (capacity : ℕ) (key : Str) (now : ℕ)
      → d.order (after (get key [] now c)) ≡ expect d capacity (get_request key now) (d.order c)
  get_order capacity key now = elim (Option-cases (find Str-discrete key c.cache_map)) [
    | inl missing ↦
        rw (holds-find-none key (d.order c) c.cache_map keys-Tracked missing)
          (get_missed key now missing)
    | inr (e, found) ↦ rw (holds-find-some key (d.order c) c.cache_map keys-Tracked found) (
        rw (get-hit key [] now c e found) (
          update_order key (map_put Str-discrete key (record e { access_time = now }) c.cache_map)
            ((c.hit_count + 1) % u64_mod) ((c.total_requests + 1) % u64_mod)))
  ]

  insert_order :
      (key value : Str) (now : ℕ) (c₁ : BenchmarkCache)
      → c₁.policy ≡ c.policy
      → d.order (insert_entry key value now c₁) ≡ d.add key (d.order c₁)
  unfolding insert_entry
  insert_order key value now c₁ q =
      let m =
        map_put Str-discrete key
          (record {
            key = key;
            value = value;
            access_time = now;
            insert_time = now;
            visited = false;
            reference_bit = true;
          })
          c₁.cache_map in
      ap (λ r. d.order (add_policy r key (record c₁ { cache_map = m }))) (q ∙ p)
      ∙ d.add_lem key (record c₁ { cache_map = m })
      ∙ ap (d.add key) (d.entries_lem c₁ m c₁.hit_count c₁.miss_count c₁.total_requests)

  -- What `put` makes of the order.
  abbrev pub Puts : ℕ → Str → Str → ℕ → Type 0
  Puts capacity key value now =
      (c' : BenchmarkCache) × (put key value now c ≡ some (true, c'))
      × (d.order c' ≡ expect d capacity (put_request key value now) (d.order c))

  put_new_order :
      (capacity : ℕ) (key value : Str) (now : ℕ)
      → c.max_capacity ≡ capacity
      → find Str-discrete key c.cache_map ≡ none
      → Puts capacity key value now
  put_new_order capacity key value now bound missing =
      let new = holds-find-none key (d.order c) c.cache_map keys-Tracked missing in
      let size : length (d.order c) ≡ length c.cache_map =
        Tracked-length c.cache_map (d.order c) v.distinct keys-Tracked in
      elim (Bool-cases (leb c.max_capacity (length c.cache_map))) [
        | inr room ↦
            let room' : leb capacity (length (d.order c)) ≡ false = ground arith in
            (
              insert_entry key value now c,
              put-room key value now c missing room,
              rw (new, room') (insert_order key value now c refl),
            )
        | inl full ↦
            let full' : leb capacity (length (d.order c)) ≡ true = ground arith in
            let (c₁, ends, e) = evict_policy_lem c.policy c v.distinct v.order in
            (
              insert_entry key value now c₁,
              put-full key value now c c₁ missing full ends,
              rw (new, full')
                  (insert_order key value now c₁ e.policy
                    ∙ ap (d.add key)
                        (d.evict_lem c c₁ (ap (λ q. evict_policy q c) (sym p) ∙ ends))),
            )
      ]

  pub put_order :
      (capacity : ℕ) (key value : Str) (now : ℕ)
      → c.max_capacity ≡ capacity
      → Puts capacity key value now
  put_order capacity key value now bound = elim (Option-cases (find Str-discrete key c.cache_map)) [
    | inl missing ↦ put_new_order capacity key value now bound missing
    | inr (e, found) ↦
        let m =
          map_put Str-discrete key (record e { value = value; access_time = now }) c.cache_map in
        (
          update_policy c.policy key (record c { cache_map = m }),
          put-found key value now c e found,
          rw (holds-find-some key (d.order c) c.cache_map keys-Tracked found)
              (update_order key m c.hit_count c.total_requests),
        )
  ]
