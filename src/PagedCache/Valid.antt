-- ===== src/PagedCache/Valid.antt =====
-- The invariant of `PagedCache`: what the pages, the map and the order of use say of one another.
use os_lab.Base.{
  ℕ, ◌+◌, ◌≤◌, ◌<◌, ◌≡◌, refl, ◌≢◌, Option, none, some, List, Str, Str-discrete, ite, if_pos, arith,
  length,
}
use os_lab.Keys.{count_key, count_key-remove_key, present}
use os_lab.Dict.{Dict, find, Distinct}
use os_lab.Dict.Sum.{sum, sum-add, All}
use os_lab.Pages
use os_lab.Pages.{Pages, get_free_pages}
use os_lab.Pages.Counts.{count_page}
use os_lab.Pages.Bitmap.{marked}
use os_lab.Pages.Sound
use os_lab.PagedCache.{CacheEntry, PagedCache, init, update_lru, evictable}

-- What `f` says of the entries of `client`, and of those of all others.
abbrev pub own : Str → (CacheEntry → ℕ) → CacheEntry → ℕ
own client f e = ite (Str-discrete e.client_id client) (f e) 0

abbrev pub others : Str → (CacheEntry → ℕ) → CacheEntry → ℕ
others client f e = ite (Str-discrete e.client_id client) 0 (f e)

abbrev pub blocks_at : ℕ → CacheEntry → ℕ
blocks_at q e = count_page q e.memory_blocks

abbrev pub page_count : CacheEntry → ℕ
page_count e = e.total_pages

pub sum-own-others :
    (client : Str) (f : CacheEntry → ℕ) (m : Dict Str CacheEntry)
    → sum (own client f) m + sum (others client f) m ≡ sum f m
sum-own-others client f m = sum-add (own client f) (others client f) f m (λ e. ground arith)

-- An entry has at least one page, and as many as it says.
abbrev pub IsSized : CacheEntry → Type 0
IsSized e = (length e.memory_blocks ≡ e.total_pages) × (0 < e.total_pages)

-- The pages and the map, where the entries of `client` hold the pages that `w` counts.
pub record Holds (n : ℕ) (client : Str) (w : ℕ → ℕ) (p : Pages) (m : Dict Str CacheEntry)
    : Type 0 where
  pub pages : Sound.IsValid n p
  pub held : (q : ℕ) → sum (others client (blocks_at q)) m + w q ≡ marked p.page_bitmap q
  pub distinct : Distinct Str-discrete m
  pub sized : All IsSized m

-- The marked pages are those of the entries, each in one place of one entry; the order of use has
-- every key of the map once and no other key.
pub record IsValid (n : ℕ) (c : PagedCache) : Type 0 where
  pub pages : Sound.IsValid n c.pages
  pub held : (q : ℕ) → sum (blocks_at q) c.cache_map ≡ marked c.pages.page_bitmap q
  pub distinct : Distinct Str-discrete c.cache_map
  pub sized : All IsSized c.cache_map
  pub order : (k : Str) → count_key k c.lru_order ≡ present k c.cache_map

pub init-IsValid : (n : ℕ) → 0 < n → IsValid n (init n)
unfolding init sum count_key present find Pages.init
init-IsValid n h = record {
  pages = Sound.init-IsValid n h;
  held = λ q. ground (arith, Pages.Bitmap.marked-replicate n q);
  distinct = tt;
  sized = tt;
  order = λ k. refl;
}

-- A use of a key puts it in front, once.
pub count_key-update_lru :
    (k key : Str) (order : List Str)
    → count_key key order ≤ 1
    → count_key k (update_lru key order) ≡ ite (Str-discrete k key) 1 (count_key k order)
unfolding count_key update_lru
count_key-update_lru k key order h = elim (Str-discrete k key) [
  | yes p ↦ rw (if_pos _ p) (ground (arith, count_key-remove_key k key order))
  | no p ↦ ground (arith, count_key-remove_key k key order)
]

-- What may be evicted is an entry of another client.
pub evictable-eq-some :
    (client : Str) (o : Option CacheEntry) (e : CacheEntry)
    → evictable client o ≡ some e
    → (o ≡ some e) × (e.client_id ≢ client)
unfolding evictable
evictable-eq-some client none e h = cc
evictable-eq-some client (some x) e h = ground arith

pub evictable-eq-none :
    (client : Str) (e : CacheEntry) → evictable client (some e) ≡ none → e.client_id ≡ client
unfolding evictable
evictable-eq-none client e h = ground arith
