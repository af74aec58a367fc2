-- ===== src/BenchmarkCache/References.antt =====
-- Any calls of `get` and `put` of benchmark_cache.cpp, replayed by a reference that knows less than
-- the cache.
use os_lab.Base.{
  ℕ, ◌+◌, ◌%◌, Option-cases, inl, inr, ◌≡◌, refl, sym, ap, subst, ◌∙◌, Bool, true, some,
  some-injective, List, [], ◌∷◌, Str, Str-discrete,
}
use os_lab.Dict.{find, put as map_put}
use os_lab.BenchmarkCache.{create, update_policy, get, put, u64_mod}
use os_lab.BenchmarkCache.Policies.{
  EvictionPolicy, lru, fifo, sieve, clock, BenchmarkCache, update_lru, update_sieve, update_clock,
}
use os_lab.BenchmarkCache.Valid.{IsValid}
use os_lab.BenchmarkCache.Serve.{after, get-hit, get-miss, get_lem}
use os_lab.BenchmarkCache.Put.{put_stores}
use os_lab.BenchmarkCache.Run.{
  Request, get_request, put_request, after_put, serve, serve_all, create-IsValid,
}

update_policy-policy :
    (p : EvictionPolicy) (key : Str) (c : BenchmarkCache)
    → (update_policy p key c).policy ≡ c.policy
unfolding update_policy update_lru update_sieve update_clock
update_policy-policy lru key c = refl
update_policy-policy fifo key c = refl
update_policy-policy sieve key c = refl
update_policy-policy clock key c = refl

get-policy :
    (key value : Str) (now : ℕ) (c : BenchmarkCache)
    → (after (get key value now c)).policy ≡ c.policy
unfolding get
get-policy key value now c = elim (Option-cases (find Str-discrete key c.cache_map)) [
  | inl missing ↦ rw (get-miss key value now c missing) refl
  | inr (e, found) ↦ rw (get-hit key value now c e found) (
      update_policy-policy c.policy key (record c {
        total_requests = (c.total_requests + 1) % u64_mod;
        hit_count = (c.hit_count + 1) % u64_mod;
        cache_map = map_put Str-discrete key (record e { access_time = now }) c.cache_map;
      }))
]

-- A reference that replays calls under a policy: what it knows of a cache, and what it expects of a
-- call.
pub record Reference {ℓ} (S : Type ℓ) (policy : EvictionPolicy) (capacity : ℕ) : Type ℓ where
  pub state : BenchmarkCache → S
  pub expect : Request → S → S
  pub get_lem :
      (key : Str) (now : ℕ) (c : BenchmarkCache)
      → IsValid c
      → c.policy ≡ policy
      → state (after (get key [] now c)) ≡ expect (get_request key now) (state c)
  pub put_lem :
      (key value : Str) (now : ℕ) (c : BenchmarkCache)
      → IsValid c
      → c.policy ≡ policy
      → c.max_capacity ≡ capacity
      → (c' : BenchmarkCache) × (put key value now c ≡ some (true, c'))
        × (state c' ≡ expect (put_request key value now) (state c))

module _ {ℓ} {S : Type ℓ} {p : EvictionPolicy} {capacity : ℕ} (r : Reference S p capacity) where
  abbrev pub replay : List Request → S → S
  replay [] s = s
  replay (request ∷ requests) s = replay requests (r.expect request s)

  -- A valid cache with the policy and the capacity, of which the reference knows `s`.
  pub record Follows (s : S) (c : BenchmarkCache) : Type ℓ where
    pub valid : IsValid c
    pub policy : c.policy ≡ p
    pub bound : c.max_capacity ≡ capacity
    pub same : r.state c ≡ s

  serve-Follows :
      (request : Request) (c : BenchmarkCache) (s : S)
      → Follows s c
      → (c' : BenchmarkCache) × (serve request c ≡ some c') × Follows (r.expect request s) c'
  unfolding serve
  serve-Follows (get_request key now) c s f =
      let served = get_lem key [] now c f.valid in
      (
        after (get key [] now c),
        refl,
        record {
          valid = served.valid;
          policy = get-policy key [] now c ∙ f.policy;
          bound = served.capacity ∙ f.bound;
          same = r.get_lem key now c f.valid f.policy ∙ ap (r.expect (get_request key now)) f.same;
        },
      )
  serve-Follows (put_request key value now) c s f =
      let (c', returns, order) = r.put_lem key value now c f.valid f.policy f.bound in
      let (c₁, returns₁, stored) = put_stores key value now c f.valid in
      let e : c₁ ≡ c' =
        ap (λ (t : Bool × BenchmarkCache). t.1)
          (some-injective (true, c₁) (true, c') (sym returns₁ ∙ returns)) in
      (
        c',
        ap after_put returns,
        record {
          valid = subst IsValid e stored.valid;
          policy = subst (λ x. x.policy ≡ p) e (stored.policy ∙ f.policy);
          bound = subst (λ x. x.max_capacity ≡ capacity) e (stored.capacity ∙ f.bound);
          same = order ∙ ap (r.expect (put_request key value now)) f.same;
        },
      )

  serve_all-Follows :
      (requests : List Request) (c : BenchmarkCache) (s : S)
      → Follows s c
      → (c' : BenchmarkCache) × (serve_all requests c ≡ some c') × Follows (replay requests s) c'
  unfolding serve_all
  serve_all-Follows [] c s f = (c, refl, f)
  serve_all-Follows (request ∷ requests) c s f =
      let (c₁, one, f₁) = serve-Follows request c s f in
      let (c', rest, f') = serve_all-Follows requests c₁ (r.expect request s) f₁ in
      (c', rw (serve_all, one) rest, f')

  -- From the empty cache on.
  pub create-Follows :
      (requests : List Request) (s : S)
      → r.state (create capacity p) ≡ s
      → (c' : BenchmarkCache) × (serve_all requests (create capacity p) ≡ some c')
        × Follows (replay requests s) c'
  unfolding create
  create-Follows requests s empty =
      serve_all-Follows requests (create capacity p) s
        (record { valid = create-IsValid capacity p; policy = refl; bound = refl; same = empty })
