-- ===== src/BenchmarkCache/Sieve.antt =====
-- The loop of `evict_sieve` in benchmark_cache.cpp.
use os_lab.Base.{
  ℕ, ◌+◌, ◌≤◌, ◌≡◌, refl, ap, ◌∙◌, inl, inr, true, false, Option, none, some, List, [], ◌∷◌, Str,
  Str-discrete, ite, arith, length, Bool-cases, Option-cases,
}
use os_lab.Dict.{
  find, erase, put, Distinct, put-Distinct, erase-Distinct, length-erase, length-put_old,
}
use os_lab.Keys.{count_key, present, present-erase, present-put, present-found}
use os_lab.BenchmarkCache.Policies.{BenchmarkCacheEntry, Entries, Sweep, sweep, keep_key}
use os_lab.BenchmarkCache.Valid.{lookup, lookup-erase, lookup-put_same}

-- How often a sweep took a key.
unfoldable pub taken_key : Str → Option Str → ℕ
taken_key k none = 0
taken_key k (some v) = ite (Str-discrete k v) 1 0

unfoldable pub taken_some : Option Str → ℕ
taken_some none = 0
taken_some (some v) = 1

unfoldable pub without : Option Str → Str → Option Str → Option Str
without none k v = v
without (some key) k v = ite (Str-discrete k key) none v

pub without-none : (victim : Option Str) (k : Str) → without victim k none ≡ none
unfolding without
without-none none k = refl
without-none (some key) k = ground arith

pub record Swept (order : List Str) (m : Entries) (s : Sweep) : Type 0 where
  pub order_left : (k : Str) → count_key k s.order + taken_key k s.victim ≡ count_key k order
  pub keys : (k : Str) → present k s.entries + taken_key k s.victim ≡ present k m
  pub values : (k : Str) → lookup k s.entries ≡ without s.victim k (lookup k m)
  pub distinct : Distinct Str-discrete s.entries
  pub size : length s.entries + taken_some s.victim ≡ length m

module _ (key : Str) (order : List Str) (m : Entries) (d : Distinct Str-discrete m)
    (e : BenchmarkCacheEntry) (found : find Str-discrete key m ≡ some e) where
  Swept-now :
      Swept
        (key ∷ order)
        m
        (record { victim = some key; order = order; entries = erase Str-discrete key m })
  unfolding taken_key taken_some without count_key
  Swept-now = record {
    order_left = λ k. omega arith;
    keys = λ k. ground (arith, present-erase k key m d, present-found key m e found);
    values = λ k. lookup-erase k key m d;
    distinct = erase-Distinct Str-discrete key m d;
    size = length-erase Str-discrete key e m found;
  }

  abbrev unvisited : Entries
  unvisited = put Str-discrete key (record e { visited = false }) m

  pub unvisited_keys : (k : Str) → present k unvisited ≡ present k m
  unvisited_keys k =
      ground
        (arith, present-put k key (record e { visited = false }) m, present-found key m e found)

  Swept-later : (s : Sweep) → Swept order unvisited s → Swept (key ∷ order) m (keep_key key s)
  unfolding count_key
  Swept-later s w = record {
    order_left = λ k. omega (arith, w.order_left k);
    keys = λ k. w.keys k ∙ unvisited_keys k;
    values = λ k.
        w.values k
        ∙ ap (without s.victim k)
            (lookup-put_same k key e (record e { visited = false }) m found refl);
    distinct = w.distinct;
    size = w.size ∙ length-put_old Str-discrete key (record e { visited = false }) e m found;
  }

  pub sweep_unvisited :
      e.visited ≡ false
      → sweep (key ∷ order) m
        ≡ record { victim = some key; order = order; entries = erase Str-discrete key m }
  unfolding sweep
  sweep_unvisited h = rw (sweep, found, h)

  pub sweep_visited :
      e.visited ≡ true → sweep (key ∷ order) m ≡ keep_key key (sweep order unvisited)
  unfolding sweep
  sweep_visited h = rw (sweep, found, h)

  pub unvisited-Distinct : Distinct Str-discrete unvisited
  unvisited-Distinct = put-Distinct Str-discrete key (record e { visited = false }) m d

count_key-tail : (k key : Str) (order : List Str) → count_key k order ≤ count_key k (key ∷ order)
unfolding count_key
count_key-tail k key order = omega arith

-- The sweep over an order of keys of the map.
pub sweep_lem :
    (order : List Str) (m : Entries)
    → Distinct Str-discrete m
    → ((k : Str) → count_key k order ≤ present k m)
    → Swept order m (sweep order m)
unfolding sweep taken_key taken_some without
sweep_lem [] m d h = record {
  order_left = λ k. omega arith;
  keys = λ k. omega arith;
  values = λ k. refl;
  distinct = d;
  size = omega arith;
}
sweep_lem (key ∷ order) m d h = elim (Option-cases (find Str-discrete key m)) [
  | inl e ↦ absurd (unfold present count_key in ground (arith, h key))
  | inr (e, found) ↦ elim (Bool-cases e.visited) [
    | inr off ↦ rw (sweep_unvisited key order m d e found off) (Swept-now key order m d e found)
    | inl on ↦ rw (sweep_visited key order m d e found on) (
        Swept-later key order m d e found (sweep order (unvisited key order m d e found)) (
          sweep_lem order (unvisited key order m d e found)
            (unvisited-Distinct key order m d e found)
            (λ k.
              omega
                (arith, h k, unvisited_keys key order m d e found k, count_key-tail k key order))))
  ]
]
