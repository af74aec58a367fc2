-- ===== src/BenchmarkCache/Replays.antt =====
-- Any calls of `get` and `put` of benchmark_cache.cpp under LRU and FIFO, replayed by the reference
-- that knows keys only.
use os_lab.Base.{ℕ, ◌≡◌, refl, sym, ap, ◌∙◌, some, some-injective, List, [], ◌∷◌, ◌++◌, Str}
use os_lab.Keys.{remove_key, count_key, present}
use os_lab.BenchmarkCache.{create, update_policy, evict_policy, add_policy}
use os_lab.BenchmarkCache.Policies.{
  lru, fifo, BenchmarkCache, pop_back, evict_back, evict_front, evict_lru, evict_fifo, update_lru,
  add_lru, add_fifo,
}
use os_lab.BenchmarkCache.Valid.{Ordered}
use os_lab.BenchmarkCache.Run.{Request, serve_all}
use os_lab.BenchmarkCache.Disciplines.{
  Discipline, expect, expect_all, keys-Tracked, get_order, put_order,
}
use os_lab.BenchmarkCache.References.{Reference, replay, create-Follows}

-- All keys but the last, and all but the first.
abbrev pub but_last : List Str → List Str
but_last [] = []
but_last (k ∷ keys) = pop_back k keys

abbrev pub but_first : List Str → List Str
but_first [] = []
but_first (k ∷ keys) = keys

pub evict_back_order :
    (order : List Str) (c : BenchmarkCache)
    → c.lru_order ≡ order
    → (evict_back order c).lru_order ≡ but_last order
evict_back_order [] c h = h
evict_back_order (k ∷ order) c h = refl

pub evict_front_order :
    (queue : List Str) (c : BenchmarkCache)
    → c.fifo_queue ≡ queue
    → (evict_front queue c).fifo_queue ≡ but_first queue
evict_front_order [] c h = h
evict_front_order (k ∷ queue) c h = refl

-- The most recently used key first; an eviction takes the last.
unfoldable pub lru_discipline : Discipline
unfolding update_policy evict_policy add_policy update_lru add_lru evict_lru Ordered
lru_discipline = record {
  policy = lru;
  order = λ c. c.lru_order;
  touch = λ key keys. key ∷ remove_key key keys;
  drop = but_last;
  add = λ key keys. key ∷ keys;
  update_lem = λ key c. refl;
  evict_lem = λ c c' h.
      ap (λ x. x.lru_order) (sym (some-injective (evict_lru c) c' h))
      ∙ evict_back_order c.lru_order c refl;
  add_lem = λ key c. refl;
  tracked = λ c t. t;
  entries_lem = λ c m hits misses total. refl;
}

-- The oldest key first; a use changes nothing, and an eviction takes the first.
unfoldable pub fifo_discipline : Discipline
unfolding update_policy evict_policy add_policy add_fifo evict_fifo Ordered
fifo_discipline = record {
  policy = fifo;
  order = λ c. c.fifo_queue;
  touch = λ key keys. keys;
  drop = but_first;
  add = λ key keys. keys ++ key ∷ [];
  update_lem = λ key c. refl;
  evict_lem = λ c c' h.
      ap (λ x. x.fifo_queue) (sym (some-injective (evict_fifo c) c' h))
      ∙ evict_front_order c.fifo_queue c refl;
  add_lem = λ key c. refl;
  tracked = λ c t. t;
  entries_lem = λ c m hits misses total. refl;
}

-- The calls return, and the keys of the cache are those of the reference, each once.
abbrev pub Replays : Discipline → List Request → ℕ → Type 0
Replays d requests capacity =
    (c' : BenchmarkCache) × (serve_all requests (create capacity d.policy) ≡ some c')
    × (d.order c' ≡ expect_all d capacity requests [])
    × ((k : Str) → present k c'.cache_map ≡ count_key k (expect_all d capacity requests []))

unfoldable discipline_reference :
    (d : Discipline) (capacity : ℕ) → Reference (List Str) d.policy capacity
discipline_reference d capacity = record {
  state = d.order;
  expect = expect d capacity;
  get_lem = λ key now c v p. get_order d c v p capacity key now;
  put_lem = λ key value now c v p bound. put_order d c v p capacity key value now bound;
}

replay-expect_all :
    (d : Discipline) (capacity : ℕ) (requests : List Request) (keys : List Str)
    → replay (discipline_reference d capacity) requests keys ≡ expect_all d capacity requests keys
unfolding discipline_reference
replay-expect_all d capacity [] keys = refl
replay-expect_all d capacity (request ∷ requests) keys =
    replay-expect_all d capacity requests (expect d capacity request keys)

create-Replays :
    (d : Discipline) (requests : List Request) (capacity : ℕ)
    → d.order (create capacity d.policy) ≡ []
    → Replays d requests capacity
unfolding discipline_reference
create-Replays d requests capacity empty =
    let (c', returns, f) = create-Follows (discipline_reference d capacity) requests [] empty in
    let same = f.same ∙ replay-expect_all d capacity requests [] in
    (c', returns, same, λ k. sym (keys-Tracked d c' f.valid f.policy k) ∙ ap (count_key k) same)

-- Any calls of `get` and `put` from an empty cache on return, under LRU and under FIFO, and then
-- the order of the policy is that of a reference that knows keys only, and the cache holds exactly
-- its keys. In the reference a new key in a full cache takes the place of the least recently used
-- one under LRU, of the oldest under FIFO, and a use makes a key the most recent under LRU only.
pub create-Replays_both :
    (requests : List Request) (capacity : ℕ)
    → Replays lru_discipline requests capacity × Replays fifo_discipline requests capacity
unfolding lru_discipline fifo_discipline create
create-Replays_both requests capacity = (
  create-Replays lru_discipline requests capacity refl,
  create-Replays fifo_discipline requests capacity refl,
)
