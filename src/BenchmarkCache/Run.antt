-- ===== src/BenchmarkCache/Run.antt =====
-- Runs of `get` and `put` of benchmark_cache.cpp from an empty cache, which all end.
use os_lab.Base.{
  ℕ, ◌+◌, ◌-◌, ◌≤◌, ◌≡◌, refl, sym, ap, subst, ◌∙◌, Bool, Option, none, some, List, [], ◌∷◌, Str,
  arith, some-injective,
}
use os_lab.Dict.{find}
use os_lab.Keys.{count_key, present}
use os_lab.BenchmarkCache.{create, get, put, get_current_size}
use os_lab.BenchmarkCache.Policies.{EvictionPolicy, lru, fifo, sieve, clock, BenchmarkCache}
use os_lab.BenchmarkCache.Valid.{IsValid, Ordered}
use os_lab.BenchmarkCache.Put.{put_stores}
use os_lab.BenchmarkCache.Serve.{after, get_lem}

-- The calls of a client of the cache.
pub data Request : Type 0 where
  get_request : Str → ℕ → Request
  put_request : Str → Str → ℕ → Request

abbrev pub after_put : Option (Bool × BenchmarkCache) → Option BenchmarkCache
after_put none = none
after_put (some (ok, c)) = some c

unfoldable pub serve : Request → BenchmarkCache → Option BenchmarkCache
unfolding get put
serve (get_request key now) c = some (after (get key [] now c))
serve (put_request key value now) c = after_put (put key value now c)

unfoldable pub serve_all : List Request → BenchmarkCache → Option BenchmarkCache
unfolding serve
serve_all [] c = some c
serve_all (r ∷ requests) c = elim (serve r c) [ none ↦ none | some c' ↦ serve_all requests c' ]

create-Ordered : (capacity : ℕ) (policy p : EvictionPolicy) → Ordered 0 p (create capacity policy)
unfolding Ordered create count_key present find
create-Ordered capacity policy lru = λ k. refl
create-Ordered capacity policy fifo = λ k. refl
create-Ordered capacity policy sieve = λ k. refl
create-Ordered capacity policy clock = record {
  held = λ k. omega arith;
  known = λ k. omega arith;
  hand = omega arith;
  filled = λ h. omega arith;
}

pub create-IsValid : (capacity : ℕ) (policy : EvictionPolicy) → IsValid (create capacity policy)
unfolding create
create-IsValid capacity policy = record {
  distinct = tt;
  order = create-Ordered capacity policy policy;
  size = omega arith;
}

serve-IsValid :
    (r : Request) (c : BenchmarkCache)
    → IsValid c
    → (c' : BenchmarkCache) × (serve r c ≡ some c')
      × IsValid c'
      × (c'.max_capacity ≡ c.max_capacity)
unfolding serve
serve-IsValid (get_request key now) c v =
    let s = get_lem key [] now c v in (after (get key [] now c), refl, s.valid, s.capacity)
serve-IsValid (put_request key value now) c v =
    let (c', returns, s) = put_stores key value now c v in
    (c', ap after_put returns, s.valid, s.capacity)

serve_all-IsValid :
    (requests : List Request) (c : BenchmarkCache)
    → IsValid c
    → (c' : BenchmarkCache) × (serve_all requests c ≡ some c')
      × IsValid c'
      × (c'.max_capacity ≡ c.max_capacity)
unfolding serve_all
serve_all-IsValid [] c v = (c, refl, v, refl)
serve_all-IsValid (r ∷ requests) c v =
    let (c₁, one, v₁, same₁) = serve-IsValid r c v in
    let (c', rest, v', same) = serve_all-IsValid requests c₁ v₁ in
    (c', rw (serve_all, one) rest, v', same ∙ same₁)

-- From an empty cache of any capacity and policy on, any sequence of `get` and `put` returns; the
-- cache is valid afterwards and holds no more entries than its capacity, or one if that is 0.
pub serve_all-create :
    (requests : List Request) (capacity : ℕ) (policy : EvictionPolicy)
    → (c' : BenchmarkCache) × (serve_all requests (create capacity policy) ≡ some c')
      × IsValid c'
      × (get_current_size c' ≤ 1 + (capacity - 1))
unfolding get_current_size create
serve_all-create requests capacity policy =
    let (c', returns, v, same) =
      serve_all-IsValid requests (create capacity policy) (create-IsValid capacity policy) in
    (c', returns, v, omega (arith, v.size, same))

pub serve-step :
    (r : Request) (c c' : BenchmarkCache) → IsValid c → serve r c ≡ some c' → IsValid c'
serve-step r c c' v h =
    let (c₁, returns, v₁, same) = serve-IsValid r c v in
    subst IsValid (some-injective c₁ c' (sym returns ∙ h)) v₁
