-- ===== src/BenchmarkCache/SieveReplays.antt =====
-- Any calls of `get` and `put` of benchmark_cache.cpp under SIEVE, replayed by a reference that
-- knows the keys in the order in which they came, with a mark for each that was used.
use os_lab.Base.{
  ℕ, ◌+◌, ◌≡◌, refl, sym, ap, subst, ◌∙◌, inl, inr, true, false, none, some, some-injective, List,
  [], ◌∷◌, ◌++◌, Str, Str-discrete, leb, if◌then◌else◌, arith, length, Bool-cases, Option-cases,
  ◌%◌,
}
use os_lab.Dict.{find, put as map_put}
use os_lab.Keys.{count_key, present}
use os_lab.BenchmarkCache.{
  create, update_policy, evict_policy, add_policy, insert_entry, get, put, u64_mod,
}
use os_lab.BenchmarkCache.Policies.{
  BenchmarkCacheEntry, BenchmarkCache, sieve, evict_sieve, update_sieve, add_sieve,
}
use os_lab.BenchmarkCache.Valid.{IsValid, Ordered, Tracked}
use os_lab.BenchmarkCache.Evict.{evict_policy_lem}
use os_lab.BenchmarkCache.Serve.{after, get-hit, get-miss}
use os_lab.BenchmarkCache.Put.{put-found, put-room, put-full, still_new}
use os_lab.BenchmarkCache.Run.{Request, get_request, put_request, serve_all}
use os_lab.BenchmarkCache.Marks.{Marked, marks, mark, drop_mark}
use os_lab.BenchmarkCache.SieveMarks.{
  marks_of, marked_keys, marked_keys-marks, use-marks, new-marks, evict_sieve-marks,
}
use os_lab.BenchmarkCache.Disciplines.{holds, holds-find-none, holds-find-some, Tracked-length}
use os_lab.BenchmarkCache.References.{Reference, replay, create-Follows}

-- A use marks a key. A new key comes to the end without a mark; with the cache full, the first key
-- without a mark goes before, and the keys in front of it lose their marks.
abbrev pub expect_marks : ℕ → Request → Marked → Marked
expect_marks capacity (get_request key now) s = if holds key (marked_keys s) then mark key s else s
expect_marks capacity (put_request key value now) s =
    if holds key (marked_keys s)
    then mark key s
    else if leb capacity (length (marked_keys s))
    then drop_mark s ++ (key, false) ∷ []
    else s ++ (key, false) ∷ []

module _ (c : BenchmarkCache) (v : IsValid c) (p : c.policy ≡ sieve) where
  sieve-Tracked : Tracked c.sieve_order c.cache_map
  unfolding Ordered
  sieve-Tracked = subst (λ q. Ordered 0 q c) p v.order

  marked_holds-none :
      (key : Str)
      → find Str-discrete key c.cache_map ≡ none
      → holds key (marked_keys (marks_of c)) ≡ false
  marked_holds-none key missing =
      ap (holds key) (marked_keys-marks c.sieve_order c.cache_map)
      ∙ holds-find-none key c.sieve_order c.cache_map sieve-Tracked missing

  marked_holds-some :
      (key : Str) (e : BenchmarkCacheEntry)
      → find Str-discrete key c.cache_map ≡ some e
      → holds key (marked_keys (marks_of c)) ≡ true
  marked_holds-some key e found =
      ap (holds key) (marked_keys-marks c.sieve_order c.cache_map)
      ∙ holds-find-some key c.sieve_order c.cache_map sieve-Tracked found

  used_marks :
      (key : Str) (e : BenchmarkCacheEntry) (hits total : ℕ)
      → marks_of (
          update_policy c.policy key (record c {
            cache_map = map_put Str-discrete key e c.cache_map;
            hit_count = hits;
            total_requests = total;
          }))
        ≡ mark key (marks_of c)
  unfolding update_policy update_sieve
  used_marks key e hits total =
      ap
        (λ q. marks_of (
          update_policy q key (record c {
            cache_map = map_put Str-discrete key e c.cache_map;
            hit_count = hits;
            total_requests = total;
          })))
        p
      ∙ use-marks key e c.sieve_order c.cache_map

  get_marks :
      (capacity : ℕ) (key : Str) (now : ℕ)
      → marks_of (after (get key [] now c))
        ≡ expect_marks capacity (get_request key now) (marks_of c)
  get_marks capacity key now = elim (Option-cases (find Str-discrete key c.cache_map)) [
    | inl missing ↦ rw (marked_holds-none key missing) (rw (get-miss key [] now c missing) refl)
    | inr (e, found) ↦ rw (marked_holds-some key e found) (
        rw (get-hit key [] now c e found) (
          used_marks key (record e { access_time = now }) ((c.hit_count + 1) % u64_mod)
            ((c.total_requests + 1) % u64_mod)))
  ]

  inserted_marks :
      (key value : Str) (now : ℕ) (c₁ : BenchmarkCache)
      → c₁.policy ≡ c.policy
      → Tracked c₁.sieve_order c₁.cache_map
      → find Str-discrete key c₁.cache_map ≡ none
      → marks_of (insert_entry key value now c₁) ≡ marks_of c₁ ++ (key, false) ∷ []
  unfolding insert_entry add_policy add_sieve
  inserted_marks key value now c₁ q t missing =
      let e : BenchmarkCacheEntry = record {
        key = key;
        value = value;
        access_time = now;
        insert_time = now;
        visited = false;
        reference_bit = true;
      } in
      let absent : count_key key c₁.sieve_order ≡ 0 =
        t key ∙ (unfold present in rw (present, missing) refl) in
      ap
        (λ r.
          marks_of
            (add_policy r key (record c₁ { cache_map = map_put Str-discrete key e c₁.cache_map })))
        (q ∙ p)
      ∙ new-marks key e c₁.sieve_order c₁.cache_map absent

  -- The eviction, when there is no room.
  evicted_marks :
      (key value : Str) (now : ℕ)
      → find Str-discrete key c.cache_map ≡ none
      → leb c.max_capacity (length c.cache_map) ≡ true
      → (c' : BenchmarkCache) × (put key value now c ≡ some (true, c'))
        × (marks_of c' ≡ drop_mark (marks_of c) ++ (key, false) ∷ [])
  unfolding evict_policy Ordered
  evicted_marks key value now missing full =
      let (c₁, ends, e) = evict_policy_lem c.policy c v.distinct v.order in
      let same : evict_sieve c ≡ c₁ =
        some-injective (evict_sieve c) c₁ (ap (λ q. evict_policy q c) (sym p) ∙ ends) in
      let tracked : Tracked c₁.sieve_order c₁.cache_map = subst (λ q. Ordered 1 q c₁) p e.order in
      (
        insert_entry key value now c₁,
        put-full key value now c c₁ missing full ends,
        inserted_marks key value now c₁ e.policy tracked (still_new key c.policy c c₁ e missing)
            ∙ ap (λ x. marks_of x ++ (key, false) ∷ []) (sym same)
            ∙ ap (λ s. s ++ (key, false) ∷ []) (evict_sieve-marks c v.distinct sieve-Tracked),
      )

  put_marks :
      (capacity : ℕ) (key value : Str) (now : ℕ)
      → c.max_capacity ≡ capacity
      → (c' : BenchmarkCache) × (put key value now c ≡ some (true, c'))
        × (marks_of c' ≡ expect_marks capacity (put_request key value now) (marks_of c))
  put_marks capacity key value now bound = elim (Option-cases (find Str-discrete key c.cache_map)) [
    | inr (e, found) ↦
        let e' : BenchmarkCacheEntry = record e { value = value; access_time = now } in
        (
          _,
          put-found key value now c e found,
          rw (marked_holds-some key e found) (used_marks key e' c.hit_count c.total_requests),
        )
    | inl missing ↦
        let size : length (marked_keys (marks_of c)) ≡ length c.cache_map =
          ap length (marked_keys-marks c.sieve_order c.cache_map)
          ∙ Tracked-length c.cache_map c.sieve_order v.distinct sieve-Tracked in
        let new = marked_holds-none key missing in
        elim (Bool-cases (leb c.max_capacity (length c.cache_map))) [
          | inr room ↦
              let room' : leb capacity (length (marked_keys (marks_of c))) ≡ false = ground arith in
              (
                insert_entry key value now c,
                put-room key value now c missing room,
                rw (new, room') (inserted_marks key value now c refl sieve-Tracked missing),
              )
          | inl full ↦
              let full' : leb capacity (length (marked_keys (marks_of c))) ≡ true = ground arith in
              let (c', returns, e) = evicted_marks key value now missing full in
              (c', returns, rw (new, full') e)
        ]
  ]

unfoldable sieve_reference : (capacity : ℕ) → Reference Marked sieve capacity
sieve_reference capacity = record {
  state = marks_of;
  expect = expect_marks capacity;
  get_lem = λ key now c v p. get_marks c v p capacity key now;
  put_lem = λ key value now c v p bound. put_marks c v p capacity key value now bound;
}

abbrev pub expect_all_marks : ℕ → List Request → Marked → Marked
expect_all_marks capacity [] s = s
expect_all_marks capacity (request ∷ requests) s =
    expect_all_marks capacity requests (expect_marks capacity request s)

replay-expect_all_marks :
    (capacity : ℕ) (requests : List Request) (s : Marked)
    → replay (sieve_reference capacity) requests s ≡ expect_all_marks capacity requests s
unfolding sieve_reference
replay-expect_all_marks capacity [] s = refl
replay-expect_all_marks capacity (request ∷ requests) s =
    replay-expect_all_marks capacity requests (expect_marks capacity request s)

-- Any calls of `get` and `put` under SIEVE, from an empty cache on, return. Then the order and the
-- visited flags are those of a reference that knows keys and marks only, and the cache holds
-- exactly its keys. In the reference a use marks a key, a new key comes to the end, and in a full
-- cache the first key without a mark goes before, or the first of all if each has one; the search
-- takes the marks that it passes away, and starts at the oldest key each time.
pub create-expect_all_marks :
    (requests : List Request) (capacity : ℕ)
    → (c' : BenchmarkCache) × (serve_all requests (create capacity sieve) ≡ some c')
      × (marks c'.sieve_order c'.cache_map ≡ expect_all_marks capacity requests [])
      × ((k : Str)
          → present k c'.cache_map
            ≡ count_key k (marked_keys (expect_all_marks capacity requests [])))
unfolding sieve_reference create
create-expect_all_marks requests capacity =
    let (c', returns, f) = create-Follows (sieve_reference capacity) requests [] refl in
    let same = f.same ∙ replay-expect_all_marks capacity requests [] in
    (
      c',
      returns,
      same,
      λ k.
          sym (sieve-Tracked c' f.valid f.policy k)
          ∙ ap (count_key k) (sym (marked_keys-marks c'.sieve_order c'.cache_map))
          ∙ ap (λ s. count_key k (marked_keys s)) same,
    )
