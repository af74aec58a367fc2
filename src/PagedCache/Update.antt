-- ===== src/PagedCache/Update.antt =====
-- `update_key`: when it succeeds, what it stores, and that a refusal keeps the old entry.
use os_lab.Base.{
  ℕ, ◌+◌, ◌≤◌, ◌<◌, ◌≡◌, refl, ◌≢◌, inl, inr, some, List, [], ◌∷◌, Str, Str-discrete, if_pos, arith,
  length, leb, if◌then◌else◌, Bool-cases,
}
use os_lab.Dict.{find, erase, find-put}
use os_lab.Dict.Sum.{All-find}
use os_lab.Pages.{get_free_pages, calculate_pages_needed}
use os_lab.Pages.Counts.{count_page}
use os_lab.PagedCache.{
  CacheEntry, PagedCache, OperationResult, success, no_space, allocate, allocate_or_evict,
  grow_entry, restore, update_key, touch_entry,
}
use os_lab.PagedCache.Valid.{IsSized, IsValid, blocks_at}
use os_lab.PagedCache.Room.{
  Ready, Outcome, Spares, Spares-refl, some_pages, room, allocate_or_evict_lem, allocate_some,
}
use os_lab.PagedCache.Write.{
  own_blocks, own_rest, released, released-Ready, released_free, put-IsValid, touch-IsValid,
  same_blocks-IsValid,
}
use os_lab.PagedCache.Add.{Others, Spares-Others, put-Others, Stores}

-- What comes of an update of the client's own entry `e`.
pub record Updated (n : ℕ) (key value client : Str) (c : PagedCache) (e : CacheEntry)
    (r : OperationResult × PagedCache) : Type 0 where
  pub valid : IsValid n r.1
  pub result : r.0 ≡ (
      if leb (calculate_pages_needed value) (room client c + e.total_pages)
      then success
      else no_space)
  pub stored : r.0 ≡ success → Stores key value client r.1.cache_map
  pub refused : r.0 ≢ success → Stores key e.value client r.1.cache_map
  pub others : Others client key c.cache_map r.1.cache_map

module _ (n : ℕ) (key value client : Str) (now : ℕ) (c : PagedCache) (v : IsValid n c)
    (e : CacheEntry) (found : find Str-discrete key c.cache_map ≡ some e)
    (mine : e.client_id ≡ client) where
  abbrev need : ℕ
  need = calculate_pages_needed value

  -- What the client's other entries hold.
  abbrev w : ℕ → ℕ
  w = own_blocks client (erase Str-discrete key c.cache_map)

  abbrev before : PagedCache
  before = released n c v key e found

  old-IsSized : IsSized e
  old-IsSized = All-find Str-discrete IsSized key e c.cache_map v.sized found

  -- The old entry is in the map of any cache that spares the client's entries.
  rest_of :
      (d : PagedCache)
      → Spares client c.cache_map d.cache_map
      → (q : ℕ) → own_blocks client d.cache_map q ≡ w q + count_page q e.memory_blocks
  rest_of d s q = omega (arith, s.sums (blocks_at q), own_rest n c v key e found client mine q)

  restore_lem :
      (r : List ℕ × PagedCache)
      → Spares client c.cache_map r.1.cache_map
      → length r.0 ≡ e.total_pages
      → Ready n client (λ q. w q + count_page q r.0) r.1
      → let d = restore key e r in
        IsValid n d
        × Stores key e.value client d.cache_map
        × Others client key c.cache_map d.cache_map
  unfolding restore
  restore_lem ([], d) s size ready = absurd (omega (arith, size, old-IsSized.1))
  restore_lem (page ∷ blocks, d) s size ready =
      let x : CacheEntry = record e { memory_blocks = page ∷ blocks } in
      (
        put-IsValid n client w d key e x ready (s.spared key e found mine) (rest_of d s)
            (size, old-IsSized.1),
        (x, ground (arith, find-put Str-discrete key key x d.cache_map), refl, mine),
        put-Others client key c.cache_map d.cache_map x
            (Spares-Others client key c.cache_map d.cache_map s),
      )

  grow_lem :
      e.total_pages < need
      → (r : List ℕ × PagedCache) → Outcome n client w need before r
      → Updated n key value client c e (grow_entry key value need now e r)
  unfolding grow_entry
  grow_lem more ([], c') o =
      let free : e.total_pages ≤ get_free_pages c'.pages =
        omega (arith, o.grows refl, released_free n c v key e found) in
      let (size, ready) =
        allocate_some n e.total_pages client w c' (some_pages n client w c' o.ready) old-IsSized.1
          free in
      let (valid, stores, others) =
        restore_lem (allocate e.total_pages c') (unfold allocate in o.spares) size ready in
      record {
        valid = valid;
        result = ground (arith, o.size, released_free n c v key e found);
        stored = λ h. cc;
        refused = λ _. stores;
        others = others;
      }
  grow_lem more (page ∷ blocks, c') o =
      let x : CacheEntry = record e {
        value = value;
        memory_blocks = page ∷ blocks;
        total_pages = need;
        last_access = now;
      } in
      let there : find Str-discrete key c'.cache_map ≡ some e = o.spares.spared key e found mine in
      let size : length (page ∷ blocks) ≡ need = ground (arith, o.size) in
      record {
        valid = touch-IsValid n key e x c' there (
            put-IsValid n client w c' key e x o.ready there (rest_of c' o.spares)
              (size, omega arith));
        result = ground (arith, o.size, released_free n c v key e found);
        stored = λ _.
            unfold touch_entry in
            (x, ground (arith, find-put Str-discrete key key x c'.cache_map), refl, mine);
        refused = λ h. absurd (h refl);
        others =
            unfold touch_entry in
            put-Others client key c.cache_map c'.cache_map x
              (Spares-Others client key c.cache_map c'.cache_map o.spares);
      }

  shrink_lem :
      need ≤ e.total_pages
      → Updated n key value client c e
          (success, touch_entry key (record e { value = value; last_access = now }) c)
  unfolding touch_entry
  shrink_lem less =
      let x : CacheEntry = record e { value = value; last_access = now } in
      record {
        valid = same_blocks-IsValid n c v key e found x refl refl;
        result = ground arith;
        stored = λ _. (x, ground (arith, find-put Str-discrete key key x c.cache_map), refl, mine);
        refused = λ h. absurd (h refl);
        others =
            put-Others client key c.cache_map c.cache_map x
              (Spares-Others client key c.cache_map c.cache_map (Spares-refl client c.cache_map));
      }

  -- An update of one's own entry: it succeeds exactly when the old pages, the free ones and those
  -- of other clients are enough together, and a refusal keeps the old value.
  pub update_key_own : Updated n key value client c e (update_key key value client now c)
  unfolding update_key
  update_key_own = elim (Bool-cases (leb need e.total_pages)) [
    | inl t ↦
        rw (found, update_key, if_pos (Str-discrete e.client_id client) mine, t)
          (shrink_lem (ground arith))
    | inr t ↦
        rw (found, update_key, if_pos (Str-discrete e.client_id client) mine, t)
          (grow_lem (ground arith) (allocate_or_evict need client (allocate need before)) (
            allocate_or_evict_lem n client w need before
              (released-Ready n c v key e found client mine)))
  ]
