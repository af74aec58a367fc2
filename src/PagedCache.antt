-- ===== src/PagedCache.antt =====
-- `PagedCache` of cache.h and cache.cpp. Each method holds the mutex of the cache from its first
-- line to its last, so it is one step on the state. `steady_clock::now()` is the argument `now`.
-- A method returns its result, what it wrote to the caller's variable, and the new state.
pub mod Valid
pub mod Evict
pub mod Room
pub mod Write
pub mod Branches
pub mod Add
pub mod Update
pub mod Steps
pub mod Foreign
pub mod RoundTrip
pub mod Space
pub mod Stretches
pub mod Lru
mod Tests
use os_lab.Base.{
  ℕ, zero, suc, ◌+◌, ◌-◌, Bool, true, false, Option, none, some, List, [], ◌∷◌, Str, Str-discrete,
  ite, ltb, leb, ◌==◌, if◌then◌else◌,
}
use os_lab.Keys.{remove_key}
use os_lab.Dict.{Dict, find, erase, put}
use os_lab.Pages
use os_lab.Pages.{
  Pages, allocate_pages_linked, deallocate_pages_linked, get_free_pages, calculate_pages_needed,
}

pub record CacheEntry : Type 0 where
  pub key : Str
  pub value : Str
  pub memory_blocks : List ℕ
  pub total_pages : ℕ
  pub last_access : ℕ
  pub client_id : Str

pub record PagedCache : Type 0 where
  pub pages : Pages
  pub cache_map : Dict Str CacheEntry
  pub lru_order : List Str

pub data OperationResult : Type 0 where
  success key_exists key_not_found no_space client_mismatch : OperationResult

-- The constructor, for any number of pages.
unfoldable pub init : ℕ → PagedCache
unfolding Pages.init
init n = record { pages = Pages.init n; cache_map = []; lru_order = [] }

unfoldable pub update_lru : Str → List Str → List Str
unfolding remove_key
update_lru key order = key ∷ remove_key key order

pub record Eviction : Type 0 where
  pub pages_freed : ℕ
  pub pages : Pages
  pub cache_map : Dict Str CacheEntry
  pub kept : List Str

-- `entry_it != cache_map.end() && entry_it->second->client_id != requesting_client`
unfoldable pub evictable : Str → Option CacheEntry → Option CacheEntry
evictable client none = none
evictable client (some e) = ite (Str-discrete e.client_id client) none (some e)

-- One round of the loop of `evict_lru_if_needed`, at `key`.
unfoldable pub evict_round : Str → ℕ → Str → Eviction → Eviction
unfolding evictable
evict_round client pages_to_free key s =
    if ltb s.pages_freed pages_to_free
    then elim (evictable client (find Str-discrete key s.cache_map)) [
      | none ↦ record s { kept = key ∷ s.kept }
      | some e ↦ record s {
        pages_freed = s.pages_freed + e.total_pages;
        pages = deallocate_pages_linked e.memory_blocks s.pages;
        cache_map = erase Str-discrete key s.cache_map;
      }
    ]
    else record s { kept = key ∷ s.kept }

-- The loop runs over `lru_order` from its end, so the rest of the list comes before its head. A
-- round that finds enough pages freed changes nothing, which is how the loop ends.
unfoldable pub evict_loop : Str → ℕ → List Str → PagedCache → Eviction
unfolding evict_round
evict_loop client pages_to_free [] c = record {
  pages_freed = 0;
  pages = c.pages;
  cache_map = c.cache_map;
  kept = [];
}
evict_loop client pages_to_free (key ∷ order) c =
    evict_round client pages_to_free key (evict_loop client pages_to_free order c)

unfoldable pub evict_lru_if_needed : ℕ → Str → PagedCache → Bool × PagedCache
unfolding evict_loop
evict_lru_if_needed pages_needed client c =
    let free_pages = get_free_pages c.pages in
    let pages_to_free = pages_needed - free_pages in
    let s = evict_loop client pages_to_free c.lru_order c in
    if leb pages_needed free_pages then (true, c) else (
      leb pages_to_free s.pages_freed,
      record { pages = s.pages; cache_map = s.cache_map; lru_order = s.kept },
    )

-- `allocate_pages_linked` on the cache.
unfoldable pub allocate : ℕ → PagedCache → List ℕ × PagedCache
allocate n c = let (blocks, p) = allocate_pages_linked n c.pages in (blocks, record c { pages = p })

-- An allocation, and if it returns `nullptr` an eviction and, where that frees enough, another.
-- `add_key` and `update_key` both do this; `[]` is the `NO_SPACE` of either.
unfoldable pub retry_after_eviction : ℕ → Bool × PagedCache → List ℕ × PagedCache
unfolding allocate
retry_after_eviction n (false, c) = ([], c)
retry_after_eviction n (true, c) = allocate n c

unfoldable pub allocate_or_evict : ℕ → Str → List ℕ × PagedCache → List ℕ × PagedCache
unfolding retry_after_eviction evict_lru_if_needed
allocate_or_evict n client ([], c) = retry_after_eviction n (evict_lru_if_needed n client c)
allocate_or_evict n client (page ∷ blocks, c) = (page ∷ blocks, c)

-- The end of `add_key`, with the pages that it got.
unfoldable pub add_entry : Str → Str → Str → ℕ → List ℕ × PagedCache → OperationResult × PagedCache
unfolding update_lru
add_entry key value client now ([], c) = (no_space, c)
add_entry key value client now (page ∷ blocks, c) = (
  success,
  record c {
    cache_map =
        put Str-discrete key
          (record {
            key = key;
            value = value;
            memory_blocks = page ∷ blocks;
            total_pages = calculate_pages_needed value;
            last_access = now;
            client_id = client;
          })
          c.cache_map;
    lru_order = update_lru key c.lru_order;
  },
)

unfoldable pub add_key : Str → Str → Str → ℕ → PagedCache → OperationResult × PagedCache
unfolding allocate allocate_or_evict add_entry
add_key key value client now c = elim (find Str-discrete key c.cache_map) [
  | some _ ↦ (key_exists, c)
  | none ↦
      let n = calculate_pages_needed value in
      add_entry key value client now (allocate_or_evict n client (allocate n c))
]

-- `it->second` is written in place, and the key becomes the most recently used.
unfoldable pub touch_entry : Str → CacheEntry → PagedCache → PagedCache
unfolding update_lru
touch_entry key e c = record c {
  cache_map = put Str-discrete key e c.cache_map;
  lru_order = update_lru key c.lru_order;
}

-- The entry gets back as many pages as it had, if there are that many.
unfoldable pub restore : Str → CacheEntry → List ℕ × PagedCache → PagedCache
restore key e ([], c) = c
restore key e (page ∷ blocks, c) = record c {
  cache_map = put Str-discrete key (record e { memory_blocks = page ∷ blocks }) c.cache_map;
}

-- The end of a growing `update_key`, with the pages that it got.
unfoldable pub grow_entry :
    Str → Str → ℕ → ℕ → CacheEntry → List ℕ × PagedCache → OperationResult × PagedCache
unfolding allocate restore touch_entry
grow_entry key value n now e ([], c) = (no_space, restore key e (allocate e.total_pages c))
grow_entry key value n now e (page ∷ blocks, c) = (
  success,
  touch_entry key
      (record e {
        value = value;
        memory_blocks = page ∷ blocks;
        total_pages = n;
        last_access = now;
      })
      c,
)

unfoldable pub update_key : Str → Str → Str → ℕ → PagedCache → OperationResult × PagedCache
unfolding allocate allocate_or_evict grow_entry touch_entry
update_key key value client now c = elim (find Str-discrete key c.cache_map) [
  | none ↦ (key_not_found, c)
  | some e ↦
      let n = calculate_pages_needed value in
      let released : PagedCache = record c {
        pages = deallocate_pages_linked e.memory_blocks c.pages;
      } in
      ite (Str-discrete e.client_id client)
        (if leb n e.total_pages
          then (success, touch_entry key (record e { value = value; last_access = now }) c)
          else grow_entry key value n now e (allocate_or_evict n client (allocate n released)))
        (client_mismatch, c)
]

-- `value` is the caller's variable, which only a success writes.
unfoldable pub get_key : Str → Str → Str → ℕ → PagedCache → OperationResult × Str × PagedCache
unfolding touch_entry
get_key key value client now c = elim (find Str-discrete key c.cache_map) [
  | none ↦ (key_not_found, value, c)
  | some e ↦
      ite (Str-discrete e.client_id client)
        (success, e.value, touch_entry key (record e { last_access = now }) c)
        (client_mismatch, value, c)
]

unfoldable pub delete_key : Str → Str → PagedCache → OperationResult × PagedCache
unfolding remove_key
delete_key key client c = elim (find Str-discrete key c.cache_map) [
  | none ↦ (key_not_found, c)
  | some e ↦
      ite (Str-discrete e.client_id client)
        (
          success,
          record {
            pages = deallocate_pages_linked e.memory_blocks c.pages;
            cache_map = erase Str-discrete key c.cache_map;
            lru_order = remove_key key c.lru_order;
          },
        )
        (client_mismatch, c)
]
