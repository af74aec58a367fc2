-- ===== src/PagedCache/Lru.antt =====
-- What eviction takes from the order of use: the older entries of other clients, and no more of
-- them than it must.
use os_lab.Base.{
  ℕ, ◌+◌, ◌-◌, ◌≤◌, ◌<◌, ◌≡◌, ap, sym, ◌∙◌, ◌⊎◌, inl, inr, false, none, some, List, [], ◌∷◌, ◌++◌,
  Str, Str-discrete, arith, leb, Option-cases,
}
use os_lab.Keys.{count_key, count_key-append, present, present-found, present-le-one}
use os_lab.Dict.{Dict, find}
use os_lab.Pages.{get_free_pages}
use os_lab.PagedCache.{CacheEntry, PagedCache, evictable, evict_loop, evict_lru_if_needed}
use os_lab.PagedCache.Valid.{IsValid}
use os_lab.PagedCache.Evict.{evict_loop_lem}
use os_lab.PagedCache.Room.{Ready, kept-order}
use os_lab.PagedCache.Write.{own_blocks, IsValid-Ready}
use os_lab.PagedCache.Stretches.{foreign_pages, IsNeeded, loop-Split}

present-le :
    (k : Str) (m' m : Dict Str CacheEntry)
    → ((e : CacheEntry) → find Str-discrete k m' ≡ some e → find Str-discrete k m ≡ some e)
    → present k m' ≤ present k m
present-le k m' m h = elim (Option-cases (find Str-discrete k m')) [
  | inl e ↦ unfold present in rw (e, present) (omega arith)
  | inr (x, e) ↦ omega (arith, present-found k m' x e, present-found k m x (h x e))
]

-- A key that is kept is in the map still, with its entry as it was.
kept-same :
    (n : ℕ) (client : Str) (w : ℕ → ℕ) (need : ℕ) (c : PagedCache) (v : Ready n client w c)
    (k : Str)
    → let s = evict_loop client (need - get_free_pages c.pages) c.lru_order c in
      0 < count_key k s.kept → find Str-discrete k s.cache_map ≡ find Str-discrete k c.cache_map
unfolding present
kept-same n client w need c v k h =
    let s = evict_loop client (need - get_free_pages c.pages) c.lru_order c in
    let done = evict_loop_lem n client w (need - get_free_pages c.pages) c.lru_order c v.holds in
    elim (Option-cases (find Str-discrete k s.cache_map)) [
      | inl e ↦ absurd (ground (arith, kept-order n client w need c v k))
      | inr (x, e) ↦ e ∙ sym (done.same k x e)
    ]

abbrev pub AllKeys : (Str → Type 0) → List Str → Type 0
AllKeys P [] = Unit
AllKeys P (k ∷ order) = P k × AllKeys P order

AllKeys-of :
    (P : Str → Type 0) (order : List Str)
    → ((k : Str) → 0 < count_key k order → P k)
    → AllKeys P order
unfolding count_key
AllKeys-of P [] h = tt
AllKeys-of P (k ∷ order) h = (h k (ground arith), AllKeys-of P order (λ j l. h j (omega arith)))

-- The order of use falls into a newer and an older part. The newer keys are all kept, with their
-- entries as they were; every entry of another client at an older key is gone, and their pages are
-- free now. The newer part is empty unless there are pages enough, and there would not be enough if
-- the newest of the older keys were spared.
pub record EvictedOldest (client : Str) (need : ℕ) (c c' : PagedCache) : Type 0 where
  pub newer : List Str
  pub older : List Str
  pub left : List Str
  pub order_eq : c.lru_order ≡ newer ++ older
  pub kept_eq : c'.lru_order ≡ newer ++ left
  pub left_le : (k : Str) → count_key k left ≤ count_key k older
  pub untouched :
      AllKeys (λ k. find Str-discrete k c'.cache_map ≡ find Str-discrete k c.cache_map) newer
  pub gone : AllKeys (λ k. evictable client (find Str-discrete k c'.cache_map) ≡ none) older
  pub stopped : (newer ≡ []) ⊎ (need ≤ get_free_pages c'.pages)
  pub freed :
      get_free_pages c'.pages ≡ get_free_pages c.pages + foreign_pages client c.cache_map older
  pub needed : IsNeeded client c.cache_map (need - get_free_pages c.pages) older

-- An eviction in a valid cache with too few free pages splits the order of use. The keys of the
-- newer part stay with their entries as they were, of the older part all entries of other clients
-- go, and just their pages become free. The newer part is empty unless there are pages enough then,
-- and the older part is the shortest that will do: without the newest of its keys there are too few
-- pages.
pub evicts_oldest :
    (n : ℕ) (client : Str) (need : ℕ) (c : PagedCache)
    → IsValid n c
    → get_free_pages c.pages < need
    → EvictedOldest client need c (evict_lru_if_needed need client c).1
unfolding evict_lru_if_needed
evicts_oldest n client need c v short =
    let w = own_blocks client c.cache_map in
    let ready = IsValid-Ready n c v client in
    let to_free = need - get_free_pages c.pages in
    let s = evict_loop client to_free c.lru_order c in
    let done = evict_loop_lem n client w to_free c.lru_order c ready.holds in
    let p =
      loop-Split n client w to_free c ready.holds c.lru_order
        (λ k. omega (arith, ready.order k, present-le-one k c.cache_map)) in
    let more : leb need (get_free_pages c.pages) ≡ false = ground arith in
    rw more (record {
      newer = p.newer;
      older = p.older;
      left = p.left;
      order_eq = p.order_eq;
      kept_eq = p.kept_eq;
      left_le = λ k. omega (
        arith,
        ap (count_key k) p.order_eq,
        ap (count_key k) p.kept_eq,
        count_key-append k p.newer p.older,
        count_key-append k p.newer p.left,
        done.keys k,
        present-le k s.cache_map c.cache_map (done.same k),
      );
      untouched =
          AllKeys-of (λ k. find Str-discrete k s.cache_map ≡ find Str-discrete k c.cache_map)
            p.newer
            (λ k h.
              kept-same n client w need c ready k
                (omega (arith, ap (count_key k) p.kept_eq, count_key-append k p.newer p.left)));
      gone =
          AllKeys-of (λ k. evictable client (find Str-discrete k s.cache_map) ≡ none) p.older
            p.gone;
      stopped = elim p.stopped [ inl e ↦ inl e | inr h ↦ inr (omega (arith, done.freed)) ];
      freed = omega (arith, done.freed, p.freed_eq);
      needed = p.needed;
    })
