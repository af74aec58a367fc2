-- ===== src/PagedCache/Write.antt =====
-- What a write to one entry of the map does to the invariant.
use os_lab.Base.{ℕ, ◌+◌, ◌≡◌, ap, none, some, List, [], Str, Str-discrete, if_pos, arith, length}
use os_lab.Keys.{
  count_key, count_key-remove_key, present, present-erase, present-found, present-le-one,
  present-put, remove_key,
}
use os_lab.Dict.{Dict, find, erase, put, put-Distinct, erase-Distinct}
use os_lab.Dict.Sum.{sum, sum-erase, sum-put_new, sum-put_old, All-find, All-erase, All-put}
use os_lab.Pages.{get_free_pages, deallocate_pages_linked}
use os_lab.Pages.Counts.{count_page}
use os_lab.Pages.Bitmap.{marked}
use os_lab.Pages.Release.{AreMarked, deallocate_pages_linked_lem}
use os_lab.Pages.Free.{get_free_pages-deallocate}
use os_lab.PagedCache.{CacheEntry, PagedCache, touch_entry, update_lru}
use os_lab.PagedCache.Valid.{own, blocks_at, IsSized, IsValid, count_key-update_lru, sum-own-others}
use os_lab.PagedCache.Room.{Ready}

-- What the entries of `client` hold.
abbrev pub own_blocks : Str → Dict Str CacheEntry → ℕ → ℕ
own_blocks client m q = sum (own client (blocks_at q)) m

module _ (n : ℕ) (c : PagedCache) (v : IsValid n c) where
  pub IsValid-Ready : (client : Str) → Ready n client (own_blocks client c.cache_map) c
  IsValid-Ready client = record {
    holds = record {
      pages = v.pages;
      held = λ q. omega (arith, v.held q, sum-own-others client (blocks_at q) c.cache_map);
      distinct = v.distinct;
      sized = v.sized;
    };
    order = v.order;
  }

module _ (n : ℕ) (client : Str) (w : ℕ → ℕ) (c : PagedCache) (key : Str) (e e' : CacheEntry)
    (v : Ready n client (λ q. w q + count_page q e'.memory_blocks) c)
    (found : find Str-discrete key c.cache_map ≡ some e)
    (rest : (q : ℕ) → own_blocks client c.cache_map q ≡ w q + count_page q e.memory_blocks)
    (sized : IsSized e') where
  put_held :
      (q : ℕ)
      → sum (blocks_at q) (put Str-discrete key e' c.cache_map) ≡ marked c.pages.page_bitmap q
  put_held q = omega (
    arith,
    rest q,
    v.holds.held q,
    sum-own-others client (blocks_at q) c.cache_map,
    sum-put_old Str-discrete (blocks_at q) key e' e c.cache_map found,
  )

  put_order : (k : Str) → count_key k c.lru_order ≡ present k (put Str-discrete key e' c.cache_map)
  put_order k =
      ground
        (arith, v.order k, present-put k key e' c.cache_map, present-found key c.cache_map e found)

  -- An entry gets new blocks in place of those that it had.
  pub put-IsValid : IsValid n (record c { cache_map = put Str-discrete key e' c.cache_map })
  put-IsValid = record {
    pages = v.holds.pages;
    held = put_held;
    distinct = put-Distinct Str-discrete key e' c.cache_map v.holds.distinct;
    sized = All-put Str-discrete IsSized key e' c.cache_map sized v.holds.sized;
    order = put_order;
  }

touch_order :
    (k key : Str) (e : CacheEntry) (m : Dict Str CacheEntry) (order : List Str)
    → ((j : Str) → count_key j order ≡ present j m)
    → count_key k (update_lru key order) ≡ present k (put Str-discrete key e m)
touch_order k key e m order h = ground (
  arith,
  h k,
  h key,
  present-le-one key m,
  present-put k key e m,
  count_key-update_lru k key order,
)

-- To move a key to the front keeps the invariant.
pub touch-IsValid :
    (n : ℕ) (key : Str) (e e' : CacheEntry) (c : PagedCache)
    → find Str-discrete key c.cache_map ≡ some e
    → IsValid n (record c { cache_map = put Str-discrete key e' c.cache_map })
    → IsValid n (touch_entry key e' c)
unfolding touch_entry
touch-IsValid n key e e' c found v = record {
  pages = v.pages;
  held = v.held;
  distinct = v.distinct;
  sized = v.sized;
  order = λ k. touch_order k key e' c.cache_map c.lru_order (λ j.
      ground (
        arith,
        v.order j,
        present-put j key e' c.cache_map,
        present-found key c.cache_map e found,
      ));
}

module _ (n : ℕ) (c : PagedCache) (v : IsValid n c) (key : Str) (e : CacheEntry)
    (found : find Str-discrete key c.cache_map ≡ some e) where
  -- A write that leaves the blocks alone.
  pub same_blocks-IsValid :
      (e' : CacheEntry)
      → e'.memory_blocks ≡ e.memory_blocks
      → e'.total_pages ≡ e.total_pages
      → IsValid n (touch_entry key e' c)
  same_blocks-IsValid e' same size =
      let old = All-find Str-discrete IsSized key e c.cache_map v.sized found in
      touch-IsValid n key e e' c found (record {
        pages = v.pages;
        held = λ q. omega (
          arith,
          v.held q,
          ap (count_page q) same,
          sum-put_old Str-discrete (blocks_at q) key e' e c.cache_map found,
        );
        distinct = put-Distinct Str-discrete key e' c.cache_map v.distinct;
        sized =
            All-put Str-discrete IsSized key e' c.cache_map
              (omega (arith, old.0, ap length same), omega arith) v.sized;
        order = λ k. ground (
          arith,
          v.order k,
          present-put k key e' c.cache_map,
          present-found key c.cache_map e found,
        );
      })

  pub found-AreMarked : AreMarked e.memory_blocks c.pages
  found-AreMarked q =
      omega (arith, v.held q, sum-erase Str-discrete (blocks_at q) key e c.cache_map found)

  abbrev pub released : PagedCache
  released = record c { pages = deallocate_pages_linked e.memory_blocks c.pages }

  pub own_rest :
      (client : Str)
      → e.client_id ≡ client
      → (q : ℕ)
      → own_blocks client c.cache_map q
        ≡ own_blocks client (erase Str-discrete key c.cache_map) q + count_page q e.memory_blocks
  own_rest client mine q = omega (
    arith,
    sum-erase Str-discrete (own client (blocks_at q)) key e c.cache_map found,
    if_pos (Str-discrete e.client_id client) mine (blocks_at q e) 0,
  )

  -- A client's entry that gave its pages back is still in the map, and holds none.
  pub released-Ready :
      (client : Str)
      → e.client_id ≡ client
      → Ready n client (own_blocks client (erase Str-discrete key c.cache_map)) released
  released-Ready client mine =
      let (w, unmarks) =
        deallocate_pages_linked_lem n e.memory_blocks c.pages 1 v.pages found-AreMarked in
      record {
        holds = record {
          pages = w;
          held = λ q. omega (
            arith,
            v.held q,
            unmarks q,
            own_rest client mine q,
            sum-own-others client (blocks_at q) c.cache_map,
          );
          distinct = v.distinct;
          sized = v.sized;
        };
        order = v.order;
      }

  pub released_free : get_free_pages released.pages ≡ get_free_pages c.pages + e.total_pages
  released_free =
      let size = All-find Str-discrete IsSized key e c.cache_map v.sized found in
      omega
        (arith, get_free_pages-deallocate n e.memory_blocks c.pages v.pages found-AreMarked, size.0)

  -- To take an entry out of the map and its pages back.
  pub removed-IsValid : IsValid n (record {
    pages = deallocate_pages_linked e.memory_blocks c.pages;
    cache_map = erase Str-discrete key c.cache_map;
    lru_order = remove_key key c.lru_order;
  })
  removed-IsValid =
      let (w, unmarks) =
        deallocate_pages_linked_lem n e.memory_blocks c.pages 1 v.pages found-AreMarked in
      record {
        pages = w;
        held = λ q. omega (
          arith,
          v.held q,
          unmarks q,
          sum-erase Str-discrete (blocks_at q) key e c.cache_map found,
        );
        distinct = erase-Distinct Str-discrete key c.cache_map v.distinct;
        sized = All-erase Str-discrete IsSized key c.cache_map v.sized;
        order = λ k. ground (
          arith,
          v.order k,
          count_key-remove_key k key c.lru_order,
          present-erase k key c.cache_map v.distinct,
          present-le-one key c.cache_map,
        );
      }

-- A new entry with the pages that were allocated for it.
pub insert-IsValid :
    (n : ℕ) (client : Str) (w : ℕ → ℕ) (c : PagedCache) (key : Str) (e : CacheEntry)
    → Ready n client (λ q. w q + count_page q e.memory_blocks) c
    → find Str-discrete key c.cache_map ≡ none
    → ((q : ℕ) → own_blocks client c.cache_map q ≡ w q)
    → IsSized e
    → IsValid n (touch_entry key e c)
unfolding touch_entry
insert-IsValid n client w c key e v fresh rest sized = record {
  pages = v.holds.pages;
  held = λ q. omega (
    arith,
    rest q,
    v.holds.held q,
    sum-own-others client (blocks_at q) c.cache_map,
    sum-put_new Str-discrete (blocks_at q) key e c.cache_map fresh,
  );
  distinct = put-Distinct Str-discrete key e c.cache_map v.holds.distinct;
  sized = All-put Str-discrete IsSized key e c.cache_map sized v.holds.sized;
  order = λ k. touch_order k key e c.cache_map c.lru_order v.order;
}

-- A refused request leaves a valid cache, if the client's entries hold what `w` counts.
pub refused-IsValid :
    (n : ℕ) (client : Str) (w : ℕ → ℕ) (c : PagedCache)
    → Ready n client (λ q. w q + count_page q []) c
    → ((q : ℕ) → own_blocks client c.cache_map q ≡ w q)
    → IsValid n c
unfolding count_page
refused-IsValid n client w c v rest = record {
  pages = v.holds.pages;
  held =
      λ q. omega (arith, rest q, v.holds.held q, sum-own-others client (blocks_at q) c.cache_map);
  distinct = v.holds.distinct;
  sized = v.holds.sized;
  order = v.order;
}
