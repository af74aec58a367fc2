-- ===== src/PagedCache/Space.antt =====
-- The account of the pages: none leaks, and what a client adds and deletes again leaves no trace.
use os_lab.Base.{
  ℕ, ◌+◌, ◌≤◌, ◌<◌, ◌≡◌, refl, ◌∙◌, none, some, List, [], ◌∷◌, Str, Str-discrete, arith, length,
}
use os_lab.Keys.{present, remove_key}
use os_lab.Dict.{Dict, find, erase, find-put}
use os_lab.Dict.Sum.{sum, All}
use os_lab.Pages.{
  get_free_pages, calculate_pages_needed, allocate_pages_linked, deallocate_pages_linked,
}
use os_lab.Pages.Counts.{in_run}
use os_lab.Pages.Bitmap.{
  marked, sum_below, sum_below-add, sum_below-zero, sum_below-ext, sum_below-count_page,
}
use os_lab.Pages.Sound.{get_free_pages-marked}
use os_lab.Pages.Allocate.{allocate_pages_linked_enough, allocate_pages_linked_zero}
use os_lab.Pages.Free.{deallocate-allocate}
use os_lab.PagedCache.{
  CacheEntry, PagedCache, success, no_space, allocate, add_entry, add_key, evict_lru_if_needed,
  delete_key, touch_entry, init,
}
use os_lab.PagedCache.Valid.{IsValid, IsSized, blocks_at, page_count}
use os_lab.PagedCache.Room.{passes}
use os_lab.PagedCache.Branches.{delete_own}
use os_lab.PagedCache.Steps.{Call, run, run-init-IsValid}
use os_lab.PagedCache.RoundTrip.{erase-put, remove_key-update_lru}

blocks_total :
    (n : ℕ) (m : Dict Str CacheEntry)
    → All IsSized m
    → ((q : ℕ) → n ≤ q → sum (blocks_at q) m ≡ 0)
    → sum_below n (λ q. sum (blocks_at q) m) ≡ sum page_count m
unfolding sum
blocks_total n [] a h = sum_below-zero n (λ q. 0) (λ q. refl)
blocks_total n ((k, e) ∷ m) a h = omega (
  arith,
  a.0,
  sum_below-add n (λ q. blocks_at q e) (λ q. sum (blocks_at q) m)
      (λ q. blocks_at q e + sum (blocks_at q) m) (λ q. refl),
  sum_below-count_page n e.memory_blocks (λ q l. omega (arith, h q l)),
  blocks_total n m a.1 (λ q l. omega (arith, h q l)),
)

-- The free pages and those that the entries record add up to all pages.
pub pages_accounted :
    (n : ℕ) (c : PagedCache) → IsValid n c → get_free_pages c.pages + sum page_count c.cache_map ≡ n
pages_accounted n c v = omega (
  arith,
  get_free_pages-marked 1 n c.pages v.pages,
  sum_below-ext n (λ q. sum (blocks_at q) c.cache_map) (marked c.pages.page_bitmap)
      (λ q _. v.held q),
  blocks_total n c.cache_map v.sized (λ q h.
      let out : in_run q 0 n ≡ 0 = ground arith in omega (arith, v.held q, v.pages.exact q)),
)

-- No page leaks: after any calls by any clients the pages that `get_free_pages` counts and the
-- `total_pages` of the entries add up to the pages of the cache.
pub run-pages_accounted :
    (n : ℕ) (calls : List (Str × ℕ × Call))
    → 0 < n
    → let c = run calls (init n) in get_free_pages c.pages + sum page_count c.cache_map ≡ n
run-pages_accounted n calls h = pages_accounted n (run calls (init n)) (run-init-IsValid n calls h)

module _ (key value client : Str) (now : ℕ) where
  abbrev entry : List ℕ → CacheEntry
  entry blocks = record {
    key = key;
    value = value;
    memory_blocks = blocks;
    total_pages = calculate_pages_needed value;
    last_access = now;
    client_id = client;
  }

  add_entry_some :
      (r : List ℕ × PagedCache)
      → 0 < length r.0
      → add_entry key value client now r ≡ (success, touch_entry key (entry r.0) r.1)
  unfolding add_entry touch_entry
  add_entry_some ([], c) h = absurd (omega arith)
  add_entry_some (page ∷ blocks, c) h = refl

  -- With free pages enough nothing is evicted, and the entry gets what the allocator returns.
  pub add_key_free :
      (n : ℕ) (c : PagedCache)
      → IsValid n c
      → find Str-discrete key c.cache_map ≡ none
      → 0 < calculate_pages_needed value
      → calculate_pages_needed value ≤ get_free_pages c.pages
      → let (blocks, p) = allocate_pages_linked (calculate_pages_needed value) c.pages in
        add_key key value client now c
        ≡ (success, touch_entry key (entry blocks) (record c { pages = p }))
  unfolding add_key
  add_key_free n c v fresh h k =
      let need = calculate_pages_needed value in
      let (size, _, _) = allocate_pages_linked_enough n need c.pages v.pages h k in
      let got : 0 < length (allocate need c).0 = unfold allocate in omega (arith, size) in
      rw (fresh, add_key, passes need client (allocate need c) got)
        (unfold allocate in add_entry_some (allocate need c) (omega (arith, size)))

  -- To delete a key that was added with free pages enough gives back the cache as it was: pages,
  -- free list, map and order of use.
  pub delete_key-add_key :
      (n : ℕ) (c : PagedCache)
      → IsValid n c
      → find Str-discrete key c.cache_map ≡ none
      → 0 < calculate_pages_needed value
      → calculate_pages_needed value ≤ get_free_pages c.pages
      → delete_key key client (add_key key value client now c).1 ≡ (success, c)
  unfolding touch_entry present
  delete_key-add_key n c v fresh h k =
      let need = calculate_pages_needed value in
      let blocks = (allocate_pages_linked need c.pages).0 in
      let e : CacheEntry = entry blocks in
      let c' = touch_entry key e (record c { pages = (allocate_pages_linked need c.pages).1 }) in
      let found : find Str-discrete key c'.cache_map ≡ some e =
        ground (arith, find-put Str-discrete key key e c.cache_map) in
      let pages : deallocate_pages_linked blocks c'.pages ≡ c.pages =
        deallocate-allocate n need c.pages v.pages h k in
      let entries : erase Str-discrete key c'.cache_map ≡ c.cache_map =
        erase-put key e c.cache_map fresh in
      let order : remove_key key c'.lru_order ≡ c.lru_order =
        remove_key-update_lru key c.lru_order (ground (arith, v.order key)) in
      rw (add_key_free n c v fresh h k) (
        delete_own key client c' e found refl
        ∙ (λ i. (success, record { pages = pages i; cache_map = entries i; lru_order = order i })))

-- The empty value cannot be stored, in a cache of any state: it needs no page, and the empty list
-- of pages that the allocator returns for it is taken for a failure.
pub add_key_empty :
    (key client : Str) (now : ℕ) (c : PagedCache)
    → find Str-discrete key c.cache_map ≡ none
    → add_key key [] client now c ≡ (no_space, c)
unfolding add_key evict_lru_if_needed calculate_pages_needed
add_key_empty key client now c fresh =
    let nothing = allocate_pages_linked_zero c.pages in ground (arith, nothing)
