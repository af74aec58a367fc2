-- ===== src/BenchmarkCache/Orders.antt =====
-- The evictions of LRU, FIFO and SIEVE: each takes one key of its order out of the map.
use os_lab.Base.{
  ◌+◌, ◌<◌, ◌≡◌, ap, ◌∙◌, inl, inr, List, [], ◌∷◌, Str, Str-discrete, ite, arith, length,
  Option-cases,
}
use os_lab.Dict.{find, erase, Distinct, erase-Distinct, length-erase}
use os_lab.Keys.{count_key, present, present-erase, present-le-one}
use os_lab.BenchmarkCache.Policies.{BenchmarkCache, last_of, pop_back}
use os_lab.BenchmarkCache.Valid.{lookup, lookup-erase, Removed, Tracked}

pub count_key-pop_back :
    (k j : Str) (order : List Str)
    → count_key k (pop_back j order) + ite (Str-discrete k (last_of j order)) 1 0
      ≡ count_key k (j ∷ order)
unfolding pop_back last_of count_key
count_key-pop_back k j [] = omega arith
count_key-pop_back k j (i ∷ order) = omega (arith, count_key-pop_back k i order)

count_key_self : (k : Str) (order : List Str) → 0 < count_key k (k ∷ order)
unfolding count_key
count_key_self k order = ground arith

-- A key of the map that leaves it.
module _ (c : BenchmarkCache) (key : Str) (d : Distinct Str-discrete c.cache_map)
    (there : present key c.cache_map ≡ 1) where
  size-erase : length (erase Str-discrete key c.cache_map) + 1 ≡ length c.cache_map
  size-erase = elim (Option-cases (find Str-discrete key c.cache_map)) [
    | inl e ↦ absurd (unfold present in ground arith)
    | inr (e, found) ↦ length-erase Str-discrete key e c.cache_map found
  ]

  pub erase-Removed :
      (c' : BenchmarkCache)
      → c'.cache_map ≡ erase Str-discrete key c.cache_map
      → c'.policy ≡ c.policy
      → c'.max_capacity ≡ c.max_capacity
      → Removed c c' key
  erase-Removed c' m p q = record {
    keys = λ k. ap (present k) m ∙ present-erase k key c.cache_map d;
    values = λ k. ap (lookup k) m ∙ lookup-erase k key c.cache_map d;
    distinct = rw m (erase-Distinct Str-discrete key c.cache_map d);
    size = rw m size-erase;
    policy = p;
    capacity = q;
  }

pub Tracked-erase :
    (order order' : List Str) (key : Str) (c c' : BenchmarkCache)
    → Tracked order c.cache_map
    → ((k : Str) → count_key k order' + ite (Str-discrete k key) 1 0 ≡ count_key k order)
    → Removed c c' key
    → Tracked order' c'.cache_map
Tracked-erase order order' key c c' t h r k =
    ground (arith, t k, h k, r.keys k, present-le-one k c.cache_map)
