-- ===== src/PagedCache/Stretches.antt =====
-- How the loop of `evict_lru_if_needed` of cache.cpp divides the order of use: into newer keys that
-- it leaves alone, and older ones, no more than it needs.
use os_lab.Base.{
  ℕ, ◌+◌, ◌≤◌, ◌<◌, ◌≡◌, refl, ap, sym, ◌∙◌, ◌⊎◌, inl, inr, Option, none, some, List, [], ◌∷◌, ◌++◌,
  Str, Str-discrete, arith, ltb, Bool-cases, Option-cases,
}
use os_lab.Keys.{count_key, present}
use os_lab.Dict.{Dict, find, find-erase}
use os_lab.PagedCache.{CacheEntry, PagedCache, Eviction, evictable, evict_round, evict_loop}
use os_lab.PagedCache.Valid.{Holds}
use os_lab.PagedCache.Evict.{Evicted, evict_loop_lem}

-- The pages of the entries at some keys that may be evicted.
abbrev pub pages_of : Option CacheEntry → ℕ
pages_of none = 0
pages_of (some e) = e.total_pages

abbrev pub foreign_pages : Str → Dict Str CacheEntry → List Str → ℕ
foreign_pages client m [] = 0
foreign_pages client m (k ∷ order) =
    pages_of (evictable client (find Str-discrete k m)) + foreign_pages client m order

-- Without the newest of these keys the pages would not have been enough.
abbrev pub IsNeeded : Str → Dict Str CacheEntry → ℕ → List Str → Type 0
IsNeeded client m pages [] = Unit
IsNeeded client m pages (k ∷ order) = foreign_pages client m order < pages

-- The order of use in two stretches: the newer keys stay as they are, and of the older ones those
-- are left that may not be evicted.
pub record Split (client : Str) (pages_to_free : ℕ) (m : Dict Str CacheEntry)
    (order kept : List Str) (freed : ℕ) (m' : Dict Str CacheEntry) : Type 0 where
  pub newer : List Str
  pub older : List Str
  pub left : List Str
  pub order_eq : order ≡ newer ++ older
  pub kept_eq : kept ≡ newer ++ left
  pub gone : (k : Str) → 0 < count_key k older → evictable client (find Str-discrete k m') ≡ none
  -- The loop does not stop before it has enough.
  pub stopped : (newer ≡ []) ⊎ (pages_to_free ≤ freed)
  -- It does not go on once it has.
  pub freed_eq : freed ≡ foreign_pages client m older
  pub needed : IsNeeded client m pages_to_free older

module _ (n : ℕ) (client : Str) (w : ℕ → ℕ) (pages_to_free : ℕ) (c : PagedCache)
    (v : Holds n client w c.pages c.cache_map) where
  abbrev after : List Str → Eviction
  after order = evict_loop client pages_to_free order c

  round_gone :
      (key : Str) (order : List Str) (s : Eviction)
      → Evicted n client w pages_to_free c.pages c.cache_map order s
      → s.pages_freed < pages_to_free
      → (k : Str) → 0 < count_key k (key ∷ order)
      → evictable client (find Str-discrete k (evict_round client pages_to_free key s).cache_map)
        ≡ none
  unfolding evict_round count_key evictable
  round_gone key order s done short k h =
      ground
        (arith, find-erase Str-discrete key k s.cache_map done.holds.distinct, done.short short k)

  -- A key that the loop has not met has its entry still.
  unmet-same :
      (key : Str) (order : List Str) (s : Eviction)
      → Evicted n client w pages_to_free c.pages c.cache_map order s
      → count_key key order ≡ 0
      → find Str-discrete key s.cache_map ≡ find Str-discrete key c.cache_map
  unfolding present
  unmet-same key order s done h = elim (Option-cases (find Str-discrete key s.cache_map)) [
    | inr (x, e) ↦ e ∙ sym (done.same key x e)
    | inl e ↦ ground (arith, done.keys key)
  ]

  round_freed :
      (key : Str) (s : Eviction)
      → s.pages_freed < pages_to_free
      → (evict_round client pages_to_free key s).pages_freed
        ≡ s.pages_freed + pages_of (evictable client (find Str-discrete key s.cache_map))
  unfolding evict_round
  round_freed key s short = ground arith

  -- While there is too little, the loop has taken all that it met.
  short_order :
      {order kept : List Str} {freed : ℕ} {m' : Dict Str CacheEntry}
      → freed < pages_to_free
      → (p : Split client pages_to_free c.cache_map order kept freed m') → p.older ≡ order
  short_order short p = elim p.stopped [
    | inl e ↦ sym (p.order_eq ∙ ap (λ l. l ++ p.older) e)
    | inr enough ↦ absurd (omega arith)
  ]

  round-Split :
      (key : Str) (order : List Str) (s : Eviction)
      → Evicted n client w pages_to_free c.pages c.cache_map order s
      → Split client pages_to_free c.cache_map order s.kept s.pages_freed s.cache_map
      → count_key key order ≡ 0
      → let s' = evict_round client pages_to_free key s in
        Split client pages_to_free c.cache_map (key ∷ order) s'.kept s'.pages_freed s'.cache_map
  round-Split key order s done p new = elim (Bool-cases (ltb s.pages_freed pages_to_free)) [
    | inr t ↦
        unfold evict_round in
        rw t (record {
          newer = key ∷ p.newer;
          older = p.older;
          left = p.left;
          order_eq = ap (◌∷◌ key) p.order_eq;
          kept_eq = ap (◌∷◌ key) p.kept_eq;
          gone = p.gone;
          stopped = inr (ground arith);
          freed_eq = p.freed_eq;
          needed = p.needed;
        })
    | inl t ↦
        let short : s.pages_freed < pages_to_free = ground arith in
        let so_far : s.pages_freed ≡ foreign_pages client c.cache_map order =
          p.freed_eq ∙ ap (foreign_pages client c.cache_map) (short_order short p) in
        record {
          newer = [];
          older = key ∷ order;
          left = (evict_round client pages_to_free key s).kept;
          order_eq = refl;
          kept_eq = refl;
          gone = λ k h. round_gone key order s done short k h;
          stopped = inl refl;
          freed_eq = omega (
            arith,
            round_freed key s short,
            so_far,
            ap (λ o. pages_of (evictable client o)) (unmet-same key order s done new),
          );
          needed = omega (arith, so_far, short);
        }
  ]

  pub loop-Split :
      (order : List Str)
      → ((k : Str) → count_key k order ≤ 1)
      → let s = after order in
        Split client pages_to_free c.cache_map order s.kept s.pages_freed s.cache_map
  unfolding evict_loop count_key
  loop-Split [] once = record {
    newer = [];
    older = [];
    left = [];
    order_eq = refl;
    kept_eq = refl;
    gone = λ k h. absurd (omega arith);
    stopped = inl refl;
    freed_eq = refl;
    needed = tt;
  }
  loop-Split (key ∷ order) once =
      round-Split key order (after order) (evict_loop_lem n client w pages_to_free order c v)
        (loop-Split order (λ k. omega (arith, once k))) (ground (arith, once key))
