-- ===== src/BenchmarkCache/SieveMarks.antt =====
-- What the operations of SIEVE in benchmark_cache.cpp make of the marks.
use os_lab.Base.{
  ◌≤◌, ◌≡◌, refl, sym, ap, ◌∙◌, inl, inr, Bool, true, false, Option, none, some, List, [], ◌∷◌,
  ◌++◌, Str, Str-discrete, ite, arith, Bool-cases, Option-cases,
}
use os_lab.Dict.{find, erase, put as map_put, Distinct, find-put}
use os_lab.Keys.{count_key, present, present-le-one}
use os_lab.BenchmarkCache.Policies.{
  BenchmarkCacheEntry, BenchmarkCache, Entries, Sweep, sweep, update_entry, evict_first,
  after_sweep, evict_sieve,
}
use os_lab.BenchmarkCache.Valid.{Tracked}
use os_lab.BenchmarkCache.Sieve.{
  Swept, sweep_lem, sweep_visited, sweep_unvisited, unvisited-Distinct, unvisited_keys,
}
use os_lab.BenchmarkCache.Marks.{
  flag, flag-put, flag-erase, Marked, marks, marks-flags, mark, marks-mark, but_first_mark,
  or_first, drop_mark, SweptMarks, unmarked_now, unmarked_later,
}

sweep-SweptMarks :
    (order : List Str) (m : Entries)
    → Distinct Str-discrete m
    → ((k : Str) → count_key k order ≤ present k m)
    → SweptMarks order m (sweep order m)
unfolding sweep
sweep-SweptMarks [] m d h = record {
  all = λ n. (refl, refl);
  one = λ v q. cc;
  others = λ k z. refl;
}
sweep-SweptMarks (key ∷ order) m d h = elim (Option-cases (find Str-discrete key m)) [
  | inl e ↦ absurd (unfold present count_key in ground (arith, h key))
  | inr (e, found) ↦
      let once : count_key key order ≡ 0 =
        unfold count_key in ground (arith, h key, present-le-one key m) in
      elim (Bool-cases e.visited) [
        | inr off ↦
            rw (sweep_unvisited key order m d e found off)
              (unmarked_now key order m d e found once off)
        | inl on ↦
            let m' = map_put Str-discrete key (record e { visited = false }) m in
            rw (sweep_visited key order m d e found on) (
              unmarked_later key order m d e found once on (sweep order m') (
                sweep-SweptMarks order m' (unvisited-Distinct key order m d e found) (λ k.
                  unfold count_key in omega (arith, h k, unvisited_keys key order m d e found k))))
      ]
]

-- The marks of a cache under SIEVE.
abbrev pub marks_of : BenchmarkCache → Marked
marks_of c = marks c.sieve_order c.cache_map

evict_first-marks :
    (order : List Str) (m : Entries) (c : BenchmarkCache)
    → Distinct Str-discrete m
    → ((k : Str) → count_key k order ≤ 1)
    → marks_of (evict_first order m c) ≡ but_first_mark (marks order m)
unfolding count_key
evict_first-marks [] m c d h = refl
evict_first-marks (key ∷ order) m c d h =
    marks-flags order m (erase Str-discrete key m)
      (λ k p. ground (arith, flag-erase k key m d, h key))

after_sweep-marks :
    (victim : Option Str) (order : List Str) (entries : Entries) (c : BenchmarkCache)
    → ((k : Str) → count_key k c.sieve_order ≤ 1)
    → (let w : Sweep = record { victim = victim; order = order; entries = entries } in
        Swept c.sieve_order c.cache_map w
        → SweptMarks c.sieve_order c.cache_map w
        → marks_of (after_sweep w c) ≡ drop_mark (marks_of c))
after_sweep-marks none order entries c h s t =
    let (a, b) = t.all refl in
    evict_first-marks order entries c s.distinct (λ k. omega (arith, h k, s.order_left k))
    ∙ ap but_first_mark b
    ∙ ap (or_first (marks_of c)) (sym a)
after_sweep-marks (some v) order entries c h s t = ap (or_first (marks_of c)) (sym (t.one v refl))

pub evict_sieve-marks :
    (c : BenchmarkCache)
    → Distinct Str-discrete c.cache_map
    → Tracked c.sieve_order c.cache_map
    → marks_of (evict_sieve c) ≡ drop_mark (marks_of c)
unfolding evict_sieve
evict_sieve-marks c d t =
    let w = sweep c.sieve_order c.cache_map in
    after_sweep-marks w.victim w.order w.entries c
      (λ k. omega (arith, t k, present-le-one k c.cache_map))
      (sweep_lem c.sieve_order c.cache_map d (λ k. omega (arith, t k)))
      (sweep-SweptMarks c.sieve_order c.cache_map d (λ k. omega (arith, t k)))

-- The keys of the reference are those of the order.
abbrev pub marked_keys : Marked → List Str
marked_keys [] = []
marked_keys ((k, b) ∷ s) = k ∷ marked_keys s

pub marked_keys-marks : (order : List Str) (m : Entries) → marked_keys (marks order m) ≡ order
marked_keys-marks [] m = refl
marked_keys-marks (k ∷ order) m = ap (λ l. k ∷ l) (marked_keys-marks order m)

marks-append :
    (order more : List Str) (m : Entries) → marks (order ++ more) m ≡ marks order m ++ marks more m
marks-append [] more m = refl
marks-append (k ∷ order) more m = ap (λ l. (k, flag k m) ∷ l) (marks-append order more m)

flag-update_entry :
    (k key : Str) (b : Bool) (e : BenchmarkCacheEntry) (m : Entries)
    → find Str-discrete key m ≡ some e
    → flag k (update_entry key (λ x. record x { visited = b }) m)
      ≡ ite (Str-discrete k key) b (flag k m)
unfolding update_entry
flag-update_entry k key b e m found =
    rw (update_entry, found) (flag-put k key (record e { visited = b }) m)

-- A write to a key and then to its flag.
flag-written :
    (k key : Str) (b : Bool) (e : BenchmarkCacheEntry) (m : Entries)
    → flag k (update_entry key (λ x. record x { visited = b }) (map_put Str-discrete key e m))
      ≡ ite (Str-discrete k key) b (flag k m)
flag-written k key b e m =
    let found : find Str-discrete key (map_put Str-discrete key e m) ≡ some e =
      ground (arith, find-put Str-discrete key key e m) in
    flag-update_entry k key b e (map_put Str-discrete key e m) found
    ∙ ground (arith, flag-put k key e m)

-- A use of a key, to whose entry the time, and perhaps a value, is written first.
pub use-marks :
    (key : Str) (e : BenchmarkCacheEntry) (order : List Str) (m : Entries)
    → marks order
        (update_entry key (λ x. record x { visited = true }) (map_put Str-discrete key e m))
      ≡ mark key (marks order m)
use-marks key e order m =
    marks-mark key order m
      (update_entry key (λ x. record x { visited = true }) (map_put Str-discrete key e m))
      (λ k. flag-written k key true e m)

-- A new key at the end of the order.
pub new-marks :
    (key : Str) (e : BenchmarkCacheEntry) (order : List Str) (m : Entries)
    → count_key key order ≡ 0
    → marks
        (order ++ key ∷ [])
        (update_entry key (λ x. record x { visited = false }) (map_put Str-discrete key e m))
      ≡ marks order m ++ (key, false) ∷ []
new-marks key e order m absent =
    let m' = update_entry key (λ x. record x { visited = false }) (map_put Str-discrete key e m) in
    marks-append order (key ∷ []) m'
    ∙ ap (λ l. l ++ marks (key ∷ []) m')
        (marks-flags order m m' (λ k p. ground (arith, flag-written k key false e m)))
    ∙ ap (λ b. marks order m ++ (key, b) ∷ []) (ground (arith, flag-written key key false e m))
