-- ===== src/BenchmarkCache/Marks.antt =====
-- The order of SIEVE in benchmark_cache.cpp with the visited flags of its keys, and what a use, a
-- new key and an eviction make of them.
use os_lab.Base.{
  ◌<◌, ◌≡◌, refl, sym, ap, ◌∙◌, Bool, true, false, Option, none, some, List, [], ◌∷◌, Str,
  Str-discrete, ite, arith,
}
use os_lab.Dict.{find, erase, put, Distinct, find-put, find-erase}
use os_lab.Keys.{count_key}
use os_lab.BenchmarkCache.Policies.{BenchmarkCacheEntry, Entries, Sweep, keep_key}

-- Whether the entry of a key is there and was visited.
unfoldable pub flag : Str → Entries → Bool
flag k m = elim (find Str-discrete k m) [ none ↦ false | some e ↦ e.visited ]

abbrev pub Marked : Type 0
Marked = List (Str × Bool)

abbrev pub marks : List Str → Entries → Marked
marks [] m = []
marks (k ∷ order) m = (k, flag k m) ∷ marks order m

pub flag-put :
    (k key : Str) (e : BenchmarkCacheEntry) (m : Entries)
    → flag k (put Str-discrete key e m) ≡ ite (Str-discrete k key) e.visited (flag k m)
unfolding flag
flag-put k key e m = ground (arith, find-put Str-discrete key k e m)

pub flag-erase :
    (k key : Str) (m : Entries)
    → Distinct Str-discrete m
    → flag k (erase Str-discrete key m) ≡ ite (Str-discrete k key) false (flag k m)
unfolding flag
flag-erase k key m d = ground (arith, find-erase Str-discrete key k m d)

-- The marks hang on the flags of the keys in the order.
pub marks-flags :
    (order : List Str) (m m' : Entries)
    → ((k : Str) → 0 < count_key k order → flag k m' ≡ flag k m)
    → marks order m' ≡ marks order m
unfolding count_key
marks-flags [] m m' h = refl
marks-flags (k ∷ order) m m' h =
    let first : flag k m' ≡ flag k m = h k (ground arith) in
    let rest = marks-flags order m m' (λ j p. h j (omega arith)) in ground (arith, first, rest)

-- A use of a key marks it.
abbrev pub mark : Str → Marked → Marked
mark key [] = []
mark key ((k, b) ∷ s) = (k, ite (Str-discrete k key) true b) ∷ mark key s

pub marks-mark :
    (key : Str) (order : List Str) (m m' : Entries)
    → ((k : Str) → flag k m' ≡ ite (Str-discrete k key) true (flag k m))
    → marks order m' ≡ mark key (marks order m)
marks-mark key [] m m' h = refl
marks-mark key (k ∷ order) m m' h = ground (arith, h k, marks-mark key order m m' h)

-- The reference of an eviction: the first key without a mark goes, and the keys before it lose
-- theirs.
abbrev pub drop_unmarked : Marked → Option Marked
drop_unmarked [] = none
drop_unmarked ((k, b) ∷ s) = elim b [
  | false ↦ some s
  | true ↦ elim (drop_unmarked s) [ none ↦ none | some left ↦ some ((k, false) ∷ left) ]
]

abbrev pub unmark : Marked → Marked
unmark [] = []
unmark ((k, b) ∷ s) = (k, false) ∷ unmark s

abbrev pub but_first_mark : Marked → Marked
but_first_mark [] = []
but_first_mark (x ∷ s) = s

-- Where all have a mark, all lose it, and the first goes.
abbrev pub or_first : Marked → Option Marked → Marked
or_first s none = but_first_mark (unmark s)
or_first s (some left) = left

abbrev pub drop_mark : Marked → Marked
drop_mark s = or_first s (drop_unmarked s)

-- What a sweep makes of the marks.
pub record SweptMarks (order : List Str) (m : Entries) (w : Sweep) : Type 0 where
  pub all :
      w.victim ≡ none
      → (drop_unmarked (marks order m) ≡ none) × (marks w.order w.entries ≡ unmark (marks order m))
  pub one :
      (v : Str) → w.victim ≡ some v → drop_unmarked (marks order m) ≡ some (marks w.order w.entries)
  pub others : (k : Str) → count_key k order ≡ 0 → flag k w.entries ≡ flag k m

module _ (key : Str) (order : List Str) (m : Entries) (d : Distinct Str-discrete m)
    (e : BenchmarkCacheEntry) (found : find Str-discrete key m ≡ some e)
    (once : count_key key order ≡ 0) where
  flag-found : flag key m ≡ e.visited
  unfolding flag
  flag-found = rw (flag, found)

  pub marks-erase : marks order (erase Str-discrete key m) ≡ marks order m
  marks-erase =
      marks-flags order m (erase Str-discrete key m) (λ k p. ground (arith, flag-erase k key m d))

  pub unmarked_now :
      e.visited ≡ false
      → SweptMarks
          (key ∷ order)
          m
          (record { victim = some key; order = order; entries = erase Str-discrete key m })
  unfolding count_key
  unmarked_now off = record {
    all = λ n. cc;
    one = λ v q. rw (flag-found ∙ off) (ap some (sym marks-erase));
    others = λ k h. ground (arith, flag-erase k key m d);
  }

  abbrev cleared : Entries
  cleared = put Str-discrete key (record e { visited = false }) m

  abbrev front : Option Marked → Option Marked
  front o = elim o [ none ↦ none | some left ↦ some ((key, false) ∷ left) ]

  pub unmarked_later :
      e.visited ≡ true
      → (w : Sweep) → SweptMarks order cleared w
      → SweptMarks (key ∷ order) m (keep_key key w)
  unfolding count_key
  unmarked_later on w s =
      let same : marks order cleared ≡ marks order m =
        marks-flags order m cleared
          (λ k p. ground (arith, flag-put k key (record e { visited = false }) m)) in
      let kept : flag key w.entries ≡ false =
        s.others key once ∙ ground (arith, flag-put key key (record e { visited = false }) m) in
      record {
        all = λ n.
            let (a, b) = s.all n in
            rw (flag-found ∙ on) (
              ap front (ap drop_unmarked (sym same) ∙ a),
              ap (λ f. (key, f) ∷ marks w.order w.entries) kept
                  ∙ ap (λ l. (key, false) ∷ l) (b ∙ ap unmark same),
            );
        one = λ v q. rw (flag-found ∙ on) (
            ap front (ap drop_unmarked (sym same) ∙ s.one v q)
            ∙ ap (λ f. some ((key, f) ∷ marks w.order w.entries)) (sym kept));
        others = λ k h.
            s.others k (omega arith)
            ∙ ground (arith, flag-put k key (record e { visited = false }) m);
      }
