-- ===== src/PagedCache/Room.antt =====
-- `evict_lru_if_needed`, and an allocation that may evict: when they succeed, and what they leave.
use os_lab.Base.{
  ℕ, ◌+◌, ◌-◌, ◌≤◌, ◌<◌, ◌≡◌, refl, ◌⊎◌, inl, inr, Bool, true, false, none, some, List, [], ◌∷◌,
  Str, Str-discrete, dec_lt, if_pos, arith, length, leb, if◌then◌else◌, Bool-cases,
}
use os_lab.Keys.{count_key, present, present-found}
use os_lab.Dict.{Dict, find}
use os_lab.Dict.Sum.{sum, sum-eq-zero}
use os_lab.Pages.{get_free_pages}
use os_lab.Pages.Counts.{count_page}
use os_lab.Pages.Allocate.{
  allocate_pages_linked_enough, allocate_pages_linked_short, allocate_pages_linked_zero,
}
use os_lab.PagedCache.{
  CacheEntry, PagedCache, Eviction, evictable, evict_loop, evict_lru_if_needed, allocate,
  retry_after_eviction, allocate_or_evict,
}
use os_lab.PagedCache.Valid.{own, others, page_count, Holds, evictable-eq-none}
use os_lab.PagedCache.Evict.{Evicted, evict_loop_lem}

-- A cache in which the entries of `client` hold the pages that `w` counts.
pub record Ready (n : ℕ) (client : Str) (w : ℕ → ℕ) (c : PagedCache) : Type 0 where
  pub holds : Holds n client w c.pages c.cache_map
  pub order : (k : Str) → count_key k c.lru_order ≡ present k c.cache_map

-- The pages that `client` can get: the free ones and those of all other clients.
abbrev pub room : Str → PagedCache → ℕ
room client c = get_free_pages c.pages + sum (others client page_count) c.cache_map

-- The entries after a step on behalf of `client`: all of the client's own, and of the others' some.
pub record Spares (client : Str) (m m' : Dict Str CacheEntry) : Type 0 where
  pub same :
      (k : Str) (e : CacheEntry) → find Str-discrete k m' ≡ some e → find Str-discrete k m ≡ some e
  pub spared :
      (k : Str) (e : CacheEntry)
      → find Str-discrete k m ≡ some e
      → e.client_id ≡ client
      → find Str-discrete k m' ≡ some e
  pub sums : (f : CacheEntry → ℕ) → sum (own client f) m' ≡ sum (own client f) m

pub Spares-refl : (client : Str) (m : Dict Str CacheEntry) → Spares client m m
Spares-refl client m = record { same = λ k e h. h; spared = λ k e h _. h; sums = λ f. refl }

pub record Cleared (n : ℕ) (client : Str) (w : ℕ → ℕ) (need : ℕ) (c : PagedCache)
    (r : Bool × PagedCache) : Type 0 where
  pub ready : Ready n client w r.1
  pub verdict : r.0 ≡ leb need (room client c)
  pub enough : r.0 ≡ true → need ≤ get_free_pages r.1.pages
  pub grows : get_free_pages c.pages ≤ get_free_pages r.1.pages
  pub spares : Spares client c.cache_map r.1.cache_map

module _ (n : ℕ) (client : Str) (w : ℕ → ℕ) (need : ℕ) (c : PagedCache)
    (v : Ready n client w c) where
  abbrev pub result : Eviction
  result = evict_loop client (need - get_free_pages c.pages) c.lru_order c

  done : Evicted n client w (need - get_free_pages c.pages) c.pages c.cache_map c.lru_order result
  done = evict_loop_lem n client w (need - get_free_pages c.pages) c.lru_order c v.holds

  pub kept-order : (k : Str) → count_key k result.kept ≡ present k result.cache_map
  kept-order k = omega (arith, done.keys k, v.order k)

  -- If too little was freed, all entries of other clients are gone.
  exhausted :
      result.pages_freed < need - get_free_pages c.pages
      → sum (others client page_count) result.cache_map ≡ 0
  exhausted l =
      sum-eq-zero Str-discrete (others client page_count) result.cache_map done.holds.distinct
        λ k e h.
          let was : present k c.cache_map ≡ 1 = present-found k c.cache_map e (done.same k e h) in
          let gone : evictable client (find Str-discrete k result.cache_map) ≡ none =
            done.short l k (omega (arith, v.order k)) in
          let mine : e.client_id ≡ client = evictable-eq-none client e (rw h at gone) in
          if_pos (Str-discrete e.client_id client) mine 0 e.total_pages

  -- Eviction frees enough exactly when the other clients hold enough; it never touches an entry
  -- of the client that asks.
  pub evict_lru_if_needed_lem : Cleared n client w need c (evict_lru_if_needed need client c)
  unfolding evict_lru_if_needed
  evict_lru_if_needed_lem = elim (Bool-cases (leb need (get_free_pages c.pages))) [
    | inl t ↦ rw t (record {
      ready = v;
      verdict = ground arith;
      enough = λ _. ground arith;
      grows = omega arith;
      spares = Spares-refl client c.cache_map;
    })
    | inr t ↦
        let more : get_free_pages c.pages < need = ground arith in
        rw t (record {
          ready = record { holds = done.holds; order = kept-order };
          verdict = ground (arith, exhausted, done.taken);
          enough = λ x. ground (arith, done.freed);
          grows = omega (arith, done.freed);
          spares = record { same = done.same; spared = done.spared; sums = done.sums };
        })
  ]

allocate_none :
    (n need : ℕ) (client : Str) (w : ℕ → ℕ) (c : PagedCache)
    → Ready n client w c
    → (need ≡ 0) ⊎ (get_free_pages c.pages < need)
    → allocate need c ≡ ([], c)
unfolding allocate
allocate_none n need client w c v (inl z) = rw (z, allocate_pages_linked_zero c.pages)
allocate_none n need client w c v (inr l) =
    rw (allocate_pages_linked_short n need c.pages v.holds.pages l)

pub allocate_some :
    (n need : ℕ) (client : Str) (w : ℕ → ℕ) (c : PagedCache)
    → Ready n client w c
    → 0 < need
    → need ≤ get_free_pages c.pages
    → let (xs, c') = allocate need c in
      (length xs ≡ need) × Ready n client (λ q. w q + count_page q xs) c'
unfolding allocate
allocate_some n need client w c v h k =
    let (size, w', marks) = allocate_pages_linked_enough n need c.pages v.holds.pages h k in
    (
      size,
      record {
        holds = record {
          pages = w';
          held = λ q. omega (arith, marks q, v.holds.held q);
          distinct = v.holds.distinct;
          sized = v.holds.sized;
        };
        order = v.order;
      },
    )

no_pages :
    (n : ℕ) (client : Str) (w : ℕ → ℕ) (c : PagedCache)
    → Ready n client w c
    → Ready n client (λ q. w q + count_page q []) c
unfolding count_page
no_pages n client w c v = record {
  holds = record {
    pages = v.holds.pages;
    held = λ q. omega (arith, v.holds.held q);
    distinct = v.holds.distinct;
    sized = v.holds.sized;
  };
  order = v.order;
}

pub some_pages :
    (n : ℕ) (client : Str) (w : ℕ → ℕ) (c : PagedCache)
    → Ready n client (λ q. w q + count_page q []) c
    → Ready n client w c
unfolding count_page
some_pages n client w c v = record {
  holds = record {
    pages = v.holds.pages;
    held = λ q. omega (arith, v.holds.held q);
    distinct = v.holds.distinct;
    sized = v.holds.sized;
  };
  order = v.order;
}

-- What comes of a request for `need` pages, evicting if need be.
pub record Outcome (n : ℕ) (client : Str) (w : ℕ → ℕ) (need : ℕ) (c : PagedCache)
    (r : List ℕ × PagedCache) : Type 0 where
  pub ready : Ready n client (λ q. w q + count_page q r.0) r.1
  pub size : length r.0 ≡ (if leb need (room client c) then need else 0)
  pub grows : length r.0 ≡ 0 → get_free_pages c.pages ≤ get_free_pages r.1.pages
  pub spares : Spares client c.cache_map r.1.cache_map

pub passes :
    (need : ℕ) (client : Str) (r : List ℕ × PagedCache)
    → 0 < length r.0
    → allocate_or_evict need client r ≡ r
unfolding allocate_or_evict
passes need client ([], c) h = absurd (omega arith)
passes need client (x ∷ xs, c) h = refl

module _ (n : ℕ) (client : Str) (w : ℕ → ℕ) (need : ℕ) (c : PagedCache) where
  retry_lem :
      (r : Bool × PagedCache)
      → Cleared n client w need c r
      → Outcome n client w need c (retry_after_eviction need r)
  unfolding retry_after_eviction
  retry_lem (false, c') v = record {
    ready = no_pages n client w c' v.ready;
    size = ground (arith, v.verdict);
    grows = λ _. v.grows;
    spares = v.spares;
  }
  retry_lem (true, c') v = elim (dec_lt 0 need) [
    | yes h ↦
        let (size, ready) = allocate_some n need client w c' v.ready h (v.enough refl) in
        record {
          ready = ready;
          size = ground (arith, v.verdict, size);
          grows = λ z. absurd (omega (arith, size));
          spares = unfold allocate in v.spares;
        }
    | no h ↦ rw (allocate_none n need client w c' v.ready (inl (omega arith))) (record {
      ready = no_pages n client w c' v.ready;
      size = ground arith;
      grows = λ _. v.grows;
      spares = v.spares;
    })
  ]

  evicting_lem :
      Ready n client w c
      → (need ≡ 0) ⊎ (get_free_pages c.pages < need)
      → Outcome n client w need c (allocate_or_evict need client (allocate need c))
  evicting_lem v h = rw (allocate_none n need client w c v h) (
      unfold allocate_or_evict in
      retry_lem (evict_lru_if_needed need client c) (evict_lru_if_needed_lem n client w need c v))

  -- The request is met exactly when the free pages and those of other clients are enough.
  pub allocate_or_evict_lem :
      Ready n client w c
      → Outcome n client w need c (allocate_or_evict need client (allocate need c))
  allocate_or_evict_lem v = elim (dec_lt 0 need) [
    | no z ↦ evicting_lem v (inl (omega arith))
    | yes h ↦ elim (dec_lt (get_free_pages c.pages) need) [
      | yes l ↦ evicting_lem v (inr l)
      | no k ↦
          let (size, ready) = allocate_some n need client w c v h (omega arith) in
          rw (passes need client (allocate need c) (omega arith)) (record {
            ready = ready;
            size = ground (arith, size);
            grows = λ z. absurd (omega (arith, size));
            spares = unfold allocate in Spares-refl client c.cache_map;
          })
    ]
  ]
