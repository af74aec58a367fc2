-- ===== src/PagedCache/Evict.antt =====
-- One round of the eviction loop, and the whole loop.
use os_lab.Base.{
  ℕ, ◌+◌, ◌<◌, ◌≡◌, refl, ◌≢◌, inl, inr, none, some, List, [], ◌∷◌, Str, Str-discrete, ite, if_neg,
  arith, ltb, Bool-cases, Option-cases,
}
use os_lab.Keys.{count_key, present, present-erase, present-found}
use os_lab.Dict.{Dict, find, erase, Distinct, find-erase, erase-Distinct}
use os_lab.Dict.Sum.{sum, sum-erase, All-find, All-erase}
use os_lab.Pages.{Pages, get_free_pages, deallocate_pages_linked}
use os_lab.Pages.Release.{AreMarked, deallocate_pages_linked_lem}
use os_lab.Pages.Free.{get_free_pages-deallocate}
use os_lab.PagedCache.{CacheEntry, PagedCache, Eviction, evictable, evict_round, evict_loop}
use os_lab.PagedCache.Valid.{own, others, blocks_at, page_count, IsSized, Holds, evictable-eq-some}

-- What the loop has done behind some place of the order of use, for `client` and on the way to
-- `pages_to_free`, to a cache of the pages `p₀` and the entries `m₀`.
pub record Evicted (n : ℕ) (client : Str) (w : ℕ → ℕ) (pages_to_free : ℕ) (p : Pages)
    (m : Dict Str CacheEntry) (order : List Str) (s : Eviction) : Type 0 where
  pub holds : Holds n client w s.pages s.cache_map
  -- A key that left the order of use left the map, and no other.
  pub keys :
      (k : Str) → present k s.cache_map + count_key k order ≡ present k m + count_key k s.kept
  -- The pages of the entries that were evicted, and only those, are free now.
  pub freed : get_free_pages s.pages ≡ get_free_pages p + s.pages_freed
  pub taken :
      s.pages_freed + sum (others client page_count) s.cache_map ≡ sum (others client page_count) m
  -- An entry that is still there is as it was, and all of the client's are.
  pub same :
      (k : Str) (e : CacheEntry)
      → find Str-discrete k s.cache_map ≡ some e
      → find Str-discrete k m ≡ some e
  pub spared :
      (k : Str) (e : CacheEntry)
      → find Str-discrete k m ≡ some e
      → e.client_id ≡ client
      → find Str-discrete k s.cache_map ≡ some e
  pub sums : (f : CacheEntry → ℕ) → sum (own client f) s.cache_map ≡ sum (own client f) m
  -- If too little was freed, nothing that may be evicted was passed over.
  pub short :
      s.pages_freed < pages_to_free
      → (k : Str) → 0 < count_key k order
      → evictable client (find Str-discrete k s.cache_map) ≡ none

module _ (n : ℕ) (client : Str) (w : ℕ → ℕ) (p : Pages) (m : Dict Str CacheEntry)
    (h : Holds n client w p m) (key : Str) (e : CacheEntry)
    (found : find Str-discrete key m ≡ some e) (other : e.client_id ≢ client) where
  others_of : (f : CacheEntry → ℕ) → others client f e ≡ f e
  others_of f = if_neg (Str-discrete e.client_id client) other 0 (f e)

  own_of : (f : CacheEntry → ℕ) → own client f e ≡ 0
  own_of f = if_neg (Str-discrete e.client_id client) other (f e) 0

  pub victim-AreMarked : AreMarked e.memory_blocks p
  victim-AreMarked q = omega (
    arith,
    h.held q,
    sum-erase Str-discrete (others client (blocks_at q)) key e m found,
    others_of (blocks_at q),
  )

  -- To evict an entry of another client keeps what the rest holds.
  pub erase-Holds :
      Holds n client w (deallocate_pages_linked e.memory_blocks p) (erase Str-discrete key m)
  erase-Holds =
      let (v, unmarks) =
        deallocate_pages_linked_lem n e.memory_blocks p 1 h.pages victim-AreMarked in
      record {
        pages = v;
        held = λ q. omega (
          arith,
          h.held q,
          unmarks q,
          sum-erase Str-discrete (others client (blocks_at q)) key e m found,
          others_of (blocks_at q),
        );
        distinct = erase-Distinct Str-discrete key m h.distinct;
        sized = All-erase Str-discrete IsSized key m h.sized;
      }

  pub erase_frees :
      get_free_pages (deallocate_pages_linked e.memory_blocks p) ≡ get_free_pages p + e.total_pages
  erase_frees =
      let size = All-find Str-discrete IsSized key e m h.sized found in
      omega (arith, get_free_pages-deallocate n e.memory_blocks p h.pages victim-AreMarked, size.0)

  pub erase_taken :
      sum (others client page_count) m
      ≡ e.total_pages + sum (others client page_count) (erase Str-discrete key m)
  erase_taken =
      omega (
        arith,
        sum-erase Str-discrete (others client page_count) key e m found,
        others_of page_count,
      )

  pub erase_sums :
      (f : CacheEntry → ℕ) → sum (own client f) (erase Str-discrete key m) ≡ sum (own client f) m
  erase_sums f = omega (arith, sum-erase Str-discrete (own client f) key e m found, own_of f)

find-erase-eq-some :
    (k key : Str) (m : Dict Str CacheEntry) (e : CacheEntry)
    → Distinct Str-discrete m
    → find Str-discrete k (erase Str-discrete key m) ≡ some e
    → find Str-discrete k m ≡ some e
find-erase-eq-some k key m e d h = ground (arith, find-erase Str-discrete key k m d)

module _ (n : ℕ) (client : Str) (w : ℕ → ℕ) (pages_to_free : ℕ) (p : Pages)
    (m : Dict Str CacheEntry) (order : List Str) (s : Eviction)
    (v : Evicted n client w pages_to_free p m order s) (key : Str) where
  evict_round-keep :
      (s.pages_freed < pages_to_free → evictable client (find Str-discrete key s.cache_map) ≡ none)
      → Evicted n client w pages_to_free p m (key ∷ order) (record s { kept = key ∷ s.kept })
  unfolding count_key
  evict_round-keep h = record {
    holds = v.holds;
    keys = λ k. omega (arith, v.keys k);
    freed = v.freed;
    taken = v.taken;
    same = v.same;
    spared = v.spared;
    sums = v.sums;
    short = λ l k c.
        elim (Str-discrete k key)
            as (λ d.
              0 < ite d 1 0 + count_key k order
              → evictable client (find Str-discrete k s.cache_map) ≡ none) [
                | yes e ↦ λ _. rw e (h l)
                | no e ↦ λ c'. v.short l k (omega arith)
              ]
          c;
  }

  evict_round-take :
      (e : CacheEntry)
      → find Str-discrete key s.cache_map ≡ some e
      → e.client_id ≢ client
      → Evicted n client w pages_to_free p m (key ∷ order) (record s {
        pages_freed = s.pages_freed + e.total_pages;
        pages = deallocate_pages_linked e.memory_blocks s.pages;
        cache_map = erase Str-discrete key s.cache_map;
      })
  unfolding count_key evictable
  evict_round-take e found other =
      let m' = s.cache_map in
      let d = v.holds.distinct in
      record {
        holds = erase-Holds n client w s.pages m' v.holds key e found other;
        keys =
            λ k. ground (arith, present-erase k key m' d, v.keys k, present-found key m' e found);
        freed = omega (arith, v.freed, erase_frees n client w s.pages m' v.holds key e found other);
        taken = omega (arith, v.taken, erase_taken n client w s.pages m' v.holds key e found other);
        same = λ k x h. v.same k x (find-erase-eq-some k key m' x d h);
        spared = λ k x h c. ground (arith, v.spared k x h c, find-erase Str-discrete key k m' d);
        sums = λ f.
            omega (arith, v.sums f, erase_sums n client w s.pages m' v.holds key e found other f);
        short =
            λ l k c. ground (arith, find-erase Str-discrete key k m' d, v.short (omega arith) k);
      }

  pub evict_round_lem :
      Evicted n client w pages_to_free p m (key ∷ order) (evict_round client pages_to_free key s)
  unfolding evict_round
  evict_round_lem = elim (Bool-cases (ltb s.pages_freed pages_to_free)) [
    | inr t ↦ rw t (evict_round-keep (λ l. absurd (ground arith)))
    | inl t ↦ elim (Option-cases (evictable client (find Str-discrete key s.cache_map))) [
      | inl e ↦ rw (t, e) (evict_round-keep (λ _. e))
      | inr (x, e) ↦
          let (found, other) = evictable-eq-some client (find Str-discrete key s.cache_map) x e in
          rw (t, e) (evict_round-take x found other)
    ]
  ]

-- The loop over any part of the order of use.
pub evict_loop_lem :
    (n : ℕ) (client : Str) (w : ℕ → ℕ) (pages_to_free : ℕ) (order : List Str) (c : PagedCache)
    → Holds n client w c.pages c.cache_map
    → Evicted n client w pages_to_free c.pages c.cache_map order
        (evict_loop client pages_to_free order c)
unfolding evict_loop count_key
evict_loop_lem n client w pages_to_free [] c h = record {
  holds = h;
  keys = λ k. refl;
  freed = omega arith;
  taken = omega arith;
  same = λ k e x. x;
  spared = λ k e x _. x;
  sums = λ f. refl;
  short = λ _ k x. absurd (omega arith);
}
evict_loop_lem n client w pages_to_free (key ∷ order) c h =
    evict_round_lem n client w pages_to_free c.pages c.cache_map order
      (evict_loop client pages_to_free order c) (evict_loop_lem n client w pages_to_free order c h)
      key
