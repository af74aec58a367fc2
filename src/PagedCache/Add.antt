-- ===== src/PagedCache/Add.antt =====
-- `add_key`: when it succeeds, what it stores, and what it leaves alone.
use os_lab.Base.{
  ℕ, ◌≡◌, refl, ◌≢◌, inl, inr, ◌&&◌, none, some, List, [], ◌∷◌, Str, Str-discrete, arith, length,
  ltb, leb, if◌then◌else◌, Option-cases,
}
use os_lab.Dict.{Dict, find, put, find-put}
use os_lab.Pages.{calculate_pages_needed}
use os_lab.PagedCache.{
  CacheEntry, PagedCache, OperationResult, success, no_space, allocate, allocate_or_evict,
  add_entry, add_key, touch_entry,
}
use os_lab.PagedCache.Valid.{IsValid, blocks_at}
use os_lab.PagedCache.Room.{Outcome, Spares, room, allocate_or_evict_lem}
use os_lab.PagedCache.Write.{own_blocks, IsValid-Ready, insert-IsValid, refused-IsValid}

-- The other keys: what is there was there, and the client's own entries are all still there.
pub record Others (client key : Str) (m m' : Dict Str CacheEntry) : Type 0 where
  pub same :
      (k : Str) (e : CacheEntry)
      → k ≢ key
      → find Str-discrete k m' ≡ some e
      → find Str-discrete k m ≡ some e
  pub spared :
      (k : Str) (e : CacheEntry)
      → k ≢ key
      → find Str-discrete k m ≡ some e
      → e.client_id ≡ client
      → find Str-discrete k m' ≡ some e

pub Spares-Others :
    (client key : Str) (m m' : Dict Str CacheEntry) → Spares client m m' → Others client key m m'
Spares-Others client key m m' s = record {
  same = λ k e _. s.same k e;
  spared = λ k e _. s.spared k e;
}

pub put-Others :
    (client key : Str) (m m' : Dict Str CacheEntry) (x : CacheEntry)
    → Others client key m m'
    → Others client key m (put Str-discrete key x m')
put-Others client key m m' x s = record {
  same = λ k e d h. s.same k e d (ground (arith, find-put Str-discrete key k x m'));
  spared = λ k e d h c. ground (arith, find-put Str-discrete key k x m', s.spared k e d h c);
}

-- The entry of a key, seen from outside: its value and its owner.
abbrev pub Stores : Str → Str → Str → Dict Str CacheEntry → Type 0
Stores key value client m =
    (e : CacheEntry) × (find Str-discrete key m ≡ some e)
    × (e.value ≡ value)
    × (e.client_id ≡ client)

pub record Added (n : ℕ) (key value client : Str) (c : PagedCache)
    (r : OperationResult × PagedCache) : Type 0 where
  pub valid : IsValid n r.1
  pub result : r.0 ≡ (
      if ltb 0 (calculate_pages_needed value) && leb (calculate_pages_needed value) (room client c)
      then success
      else no_space)
  pub stored : r.0 ≡ success → Stores key value client r.1.cache_map
  pub absent : r.0 ≢ success → find Str-discrete key r.1.cache_map ≡ none
  pub others : Others client key c.cache_map r.1.cache_map

module _ (n : ℕ) (key value client : Str) (now : ℕ) (c : PagedCache) (v : IsValid n c)
    (fresh : find Str-discrete key c.cache_map ≡ none) where
  abbrev need : ℕ
  need = calculate_pages_needed value

  still_fresh :
      (c' : PagedCache)
      → Spares client c.cache_map c'.cache_map
      → find Str-discrete key c'.cache_map ≡ none
  still_fresh c' s = elim (Option-cases (find Str-discrete key c'.cache_map)) [
    | inl e ↦ e
    | inr (x, e) ↦ ground (arith, s.same key x e)
  ]

  add_entry_lem :
      (r : List ℕ × PagedCache)
      → Outcome n client (own_blocks client c.cache_map) need c r
      → Added n key value client c (add_entry key value client now r)
  unfolding add_entry
  add_entry_lem ([], c') o = record {
    valid =
        refused-IsValid n client (own_blocks client c.cache_map) c' o.ready
          (λ q. o.spares.sums (blocks_at q));
    result = ground (arith, o.size);
    stored = λ e. cc;
    absent = λ _. still_fresh c' o.spares;
    others = Spares-Others client key c.cache_map c'.cache_map o.spares;
  }
  add_entry_lem (page ∷ blocks, c') o =
      let size : length (page ∷ blocks) ≡ need = ground (arith, o.size) in
      let e : CacheEntry = record {
        key = key;
        value = value;
        memory_blocks = page ∷ blocks;
        total_pages = need;
        last_access = now;
        client_id = client;
      } in
      record {
        valid =
            unfold touch_entry in
            insert-IsValid n client (own_blocks client c.cache_map) c' key e o.ready
              (still_fresh c' o.spares) (λ q. o.spares.sums (blocks_at q)) (omega arith);
        result = ground (arith, o.size);
        stored = λ _. (e, ground (arith, find-put Str-discrete key key e c'.cache_map), refl, refl);
        absent = λ h. absurd (h refl);
        others =
            put-Others client key c.cache_map c'.cache_map e
              (Spares-Others client key c.cache_map c'.cache_map o.spares);
      }

  pub add_key_absent : Added n key value client c (add_key key value client now c)
  unfolding add_key
  add_key_absent =
      rw (fresh, add_key)
        (add_entry_lem (allocate_or_evict need client (allocate need c)) (
          allocate_or_evict_lem n client (own_blocks client c.cache_map) need c
            (IsValid-Ready n c v client)))
