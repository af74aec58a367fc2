-- ===== src/BenchmarkCache/Tests.antt =====
-- Runs of the cache of benchmark_cache.cpp on small inputs, and the theorems at such inputs.
use os_lab.Base.{
  List, ◌+◌, ◌-◌, ◌%◌, ◌^◌, ◌≤◌, ◌≡◌, refl, true, false, some, [], ◌∷◌, Str, Str-discrete,
}
use os_lab.Dict.{find, put as map_put}
use os_lab.BenchmarkCache.{
  create, evict_policy, add_policy, insert_entry, get, put, get_current_size,
}
use os_lab.BenchmarkCache.Policies.{
  pop_back, clock, sieve, BenchmarkCache, update_entry, add_clock, fill_slot,
}
use os_lab.BenchmarkCache.Valid.{IsValid}
use os_lab.BenchmarkCache.Counters.{serve_all_counts}
use os_lab.BenchmarkCache.Put.{Stored, put_stores}
use os_lab.BenchmarkCache.Serve.{Served, get_lem}
use os_lab.Keys.{remove_key, count_key, present}
use os_lab.BenchmarkCache.Marks.{marks}
use os_lab.BenchmarkCache.SieveMarks.{marked_keys}
use os_lab.BenchmarkCache.SieveReplays.{expect_all_marks, create-expect_all_marks}
use os_lab.BenchmarkCache.Disciplines.{expect_all}
use os_lab.BenchmarkCache.Replays.{lru_discipline, fifo_discipline, Replays, create-Replays_both}
use os_lab.BenchmarkCache.Run.{
  Request, get_request, put_request, serve, serve_all, create-IsValid, serve_all-create, serve-step,
}

abbrev k1 : Str
k1 = 49 ∷ []

abbrev k2 : Str
k2 = 50 ∷ []

abbrev word : Str
word = 104 ∷ 105 ∷ []

abbrev one : BenchmarkCache
one = record (create 1 clock) {
  cache_map =
      (
        k1,
        record {
          key = k1;
          value = word;
          access_time = 5;
          insert_time = 5;
          visited = false;
          reference_bit = true;
        },
      )
      ∷ [];
  clock_buffer = k1 ∷ [];
}

-- A full cache of capacity 1.
one-IsValid : IsValid one
unfolding create serve put evict_policy insert_entry add_policy add_clock fill_slot update_entry
    find map_put Str-discrete
one-IsValid = serve-step (put_request k1 word 5) (create 1 clock) one (create-IsValid 1 clock) refl

-- The new key evicts the old one, whose reference bit the loop clears first.
put_stores_example :
    (c' : BenchmarkCache) × (put k2 word 6 one ≡ some (true, c')) × Stored k2 word one c'
put_stores_example = put_stores k2 word 6 one one-IsValid

get_lem_example : Served k1 [] one (get k1 [] 6 one)
get_lem_example = get_lem k1 [] 6 one one-IsValid

serve_all-create_example :
    (c' : BenchmarkCache) × (serve_all
        (put_request k1 word 1 ∷ put_request k2 word 2 ∷ get_request k1 3 ∷ [])
        (create 1 clock)
      ≡ some c')
    × IsValid c'
    × (get_current_size c' ≤ 1 + (1 - 1))
serve_all-create_example =
    serve_all-create (put_request k1 word 1 ∷ put_request k2 word 2 ∷ get_request k1 3 ∷ []) 1 clock

serve_all_counts_example :
    (c' : BenchmarkCache) × (serve_all
        (put_request k1 word 1 ∷ get_request k1 2 ∷ get_request k2 3 ∷ [])
        (create 1 clock)
      ≡ some c')
    × (c'.total_requests ≡ 2 % 2 ^ 64)
    × ((c'.hit_count + c'.miss_count) % 2 ^ 64 ≡ 2 % 2 ^ 64)
serve_all_counts_example =
    serve_all_counts (put_request k1 word 1 ∷ get_request k1 2 ∷ get_request k2 3 ∷ []) 1 clock

-- Two entries: `a` is used before `c` comes.
abbrev calls : List Request
calls =
    put_request k1 word 1 ∷ put_request k2 word 2 ∷ get_request k1 3 ∷ put_request word word 4 ∷ []

expect_lru : expect_all lru_discipline 2 calls [] ≡ word ∷ k1 ∷ []
unfolding lru_discipline remove_key count_key pop_back Str-discrete
expect_lru = refl

expect_fifo : expect_all fifo_discipline 2 calls [] ≡ k2 ∷ word ∷ []
unfolding fifo_discipline remove_key count_key Str-discrete
expect_fifo = refl

create-Replays_both_example : Replays lru_discipline calls 2 × Replays fifo_discipline calls 2
create-Replays_both_example = create-Replays_both calls 2

-- Under SIEVE.
expect_sieve : expect_all_marks 2 calls [] ≡ (k1, false) ∷ (word, false) ∷ []
unfolding count_key Str-discrete
expect_sieve = refl

create-expect_all_marks_example :
    (c' : BenchmarkCache) × (serve_all calls (create 2 sieve) ≡ some c')
    × (marks c'.sieve_order c'.cache_map ≡ expect_all_marks 2 calls [])
    × ((k : Str) → present k c'.cache_map ≡ count_key k (marked_keys (expect_all_marks 2 calls [])))
create-expect_all_marks_example = create-expect_all_marks calls 2
