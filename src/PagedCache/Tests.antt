-- ===== src/PagedCache/Tests.antt =====
-- Runs of the cache on small inputs, and the theorems at such inputs.
use os_lab.Base.{
  ℕ, ◌+◌, ◌*◌, ◌≤◌, ◌<◌, ◌≡◌, refl, ◌⊎◌, none, some, List, [], ◌∷◌, Str, Str-discrete, ite, arith,
  length, replicate, ltb, leb, if◌then◌else◌, ◌&&◌,
}
use os_lab.Dict.{find, put, erase}
use os_lab.Dict.Sum.{sum}
use os_lab.Pages
use os_lab.Pages.{
  FreeBlock, Pages, get_free_pages, calculate_pages_needed, allocate_pages_linked, page_size,
  deallocate_pages_linked,
}
use os_lab.Pages.Sound
use os_lab.Pages.Sound.{calculate_pages_needed_lem}
use os_lab.Pages.Allocate.{Marks, allocate_pages_linked_enough, allocate_pages_linked_short}
use os_lab.Pages.Free.{deallocate-allocate}
use os_lab.PagedCache.{
  CacheEntry, PagedCache, success, key_exists, key_not_found, no_space, client_mismatch, init,
  add_key, update_key, get_key, delete_key, evict_lru_if_needed, evictable,
}
use os_lab.PagedCache.Valid.{IsValid, page_count}
use os_lab.PagedCache.Room.{room}
use os_lab.PagedCache.Steps.{Call, apply, run, run-init-IsValid, apply-isolation}
use os_lab.PagedCache.RoundTrip.{reads, add_key_result, update_key_result, get_key-update_key}
use os_lab.PagedCache.Space.{run-pages_accounted, delete_key-add_key, add_key_empty}
use os_lab.PagedCache.Lru.{EvictedOldest, evicts_oldest}

program : Unit {0}
unfolding Pages.init Pages.get_free_pages Pages.calculate_pages_needed Pages.allocate_pages_linked
    Pages.deallocate_pages_linked init add_key update_key get_key delete_key evict_lru_if_needed run
    apply find put erase Str-discrete
program = tt

abbrev ann : Str
ann = 1 ∷ []

abbrev bob : Str
bob = 2 ∷ []

abbrev word : Str
word = 104 ∷ 105 ∷ []

-- Two clients fill a cache of three pages.
abbrev calls : List (Str × ℕ × Call)
calls =
    (ann, 1, Call.add (10 ∷ []) word)
    ∷ (bob, 2, Call.add (20 ∷ []) word)
    ∷ (bob, 3, Call.add (30 ∷ []) word)
    ∷ (ann, 4, Call.get (10 ∷ []))
    ∷ []

abbrev filled : PagedCache
filled = run calls (init 3)

filled-IsValid : IsValid 3 filled
filled-IsValid = run-init-IsValid 3 calls (omega arith)

filled_order : filled.lru_order ≡ (10 ∷ []) ∷ (30 ∷ []) ∷ (20 ∷ []) ∷ []
unfolding program
filled_order = refl

-- A fourth key of the first client takes the page of the oldest of the second.
fourth_order :
    (add_key (40 ∷ []) word ann 5 filled).1.lru_order ≡ (40 ∷ []) ∷ (10 ∷ []) ∷ (30 ∷ []) ∷ []
unfolding program
fourth_order = refl

run-init-IsValid_example : IsValid 3 (run calls (init 3))
run-init-IsValid_example = run-init-IsValid 3 calls (omega arith)

run-pages_accounted_example :
    get_free_pages (run calls (init 3)).pages + sum page_count (run calls (init 3)).cache_map ≡ 3
run-pages_accounted_example = run-pages_accounted 3 calls (omega arith)

apply-isolation_example :
    let c' = (apply ann 5 (Call.add (40 ∷ []) word) filled).1 in
    (find Str-discrete (20 ∷ []) c'.cache_map ≡ find Str-discrete (20 ∷ []) filled.cache_map)
    ⊎ ((find Str-discrete (20 ∷ []) c'.cache_map ≡ none)
        × (evictable ann (find Str-discrete (20 ∷ []) filled.cache_map)
            ≡ find Str-discrete (20 ∷ []) filled.cache_map))
apply-isolation_example =
    apply-isolation 3 ann 5 (Call.add (40 ∷ []) word) filled (20 ∷ []) filled-IsValid (λ e. cc)

abbrev bobs : CacheEntry
bobs = record {
  key = 20 ∷ [];
  value = word;
  memory_blocks = 1 ∷ [];
  total_pages = 1;
  last_access = 2;
  client_id = bob;
}

bobs_entry : find Str-discrete (20 ∷ []) filled.cache_map ≡ some bobs
unfolding program
bobs_entry = refl

bobs_client : bobs.client_id ≡ bob
bobs_client = refl

add_key_result_example :
    (add_key (40 ∷ []) word ann 5 filled).0 ≡ (elim (find Str-discrete (40 ∷ []) filled.cache_map) [
      | some _ ↦ key_exists
      | none ↦
          let need = calculate_pages_needed word in
          if ltb 0 need && leb need (room ann filled) then success else no_space
    ])
add_key_result_example = add_key_result 3 (40 ∷ []) word ann 5 filled filled-IsValid

-- More than one page.
abbrev big : Str
big = replicate 50_000 7

update_key_result_example :
    (update_key (20 ∷ []) big bob 5 filled).0
    ≡ (elim (find Str-discrete (20 ∷ []) filled.cache_map) [
      | none ↦ key_not_found
      | some e ↦
          ite
            (Str-discrete e.client_id bob)
            (if leb (calculate_pages_needed big) (room bob filled + e.total_pages)
              then success
              else no_space)
            client_mismatch
    ])
update_key_result_example = update_key_result 3 (20 ∷ []) big bob 5 filled filled-IsValid

get_key-update_key_example :
    let (r, c') = update_key (20 ∷ []) big bob 5 filled in
    ((r ≡ success) × (reads (20 ∷ []) bob 6 c' ≡ (success, big)))
    ⊎ ((r ≡ no_space) × (reads (20 ∷ []) bob 6 c' ≡ (success, bobs.value)))
get_key-update_key_example =
    get_key-update_key 3 (20 ∷ []) big bob 5 6 filled bobs filled-IsValid bobs_entry bobs_client

evicts_oldest_example : EvictedOldest ann 1 filled (evict_lru_if_needed 1 ann filled).1
unfolding program
evicts_oldest_example = evicts_oldest 3 ann 1 filled filled-IsValid (omega arith)

abbrev one_key : PagedCache
one_key = run ((ann, 1, Call.add (10 ∷ []) word) ∷ []) (init 3)

one_key-IsValid : IsValid 3 one_key
one_key-IsValid = run-init-IsValid 3 ((ann, 1, Call.add (10 ∷ []) word) ∷ []) (omega arith)

delete_key-add_key_example :
    delete_key (20 ∷ []) bob (add_key (20 ∷ []) word bob 2 one_key).1 ≡ (success, one_key)
unfolding program
delete_key-add_key_example =
    delete_key-add_key (20 ∷ []) word bob 2 3 one_key one_key-IsValid refl (omega arith)
      (omega arith)

add_key_empty_example : add_key (20 ∷ []) [] bob 2 one_key ≡ (no_space, one_key)
unfolding program
add_key_empty_example = add_key_empty (20 ∷ []) bob 2 one_key refl

allocate_pages_linked_enough_example :
    let (xs, p') = allocate_pages_linked 2 (Pages.init 3) in
    (length xs ≡ 2) × Sound.IsValid 3 p' × Marks xs (Pages.init 3) p'
unfolding program
allocate_pages_linked_enough_example =
    allocate_pages_linked_enough 3 2 (Pages.init 3) (Sound.init-IsValid 3 (omega arith))
      (omega arith) (omega arith)

allocate_pages_linked_short_example : allocate_pages_linked 4 (Pages.init 3) ≡ ([], Pages.init 3)
unfolding program
allocate_pages_linked_short_example =
    allocate_pages_linked_short 3 4 (Pages.init 3) (Sound.init-IsValid 3 (omega arith))
      (omega arith)

deallocate-allocate_example :
    let (xs, p') = allocate_pages_linked 2 (Pages.init 3) in
    deallocate_pages_linked xs p' ≡ Pages.init 3
unfolding program
deallocate-allocate_example =
    deallocate-allocate 3 2 (Pages.init 3) (Sound.init-IsValid 3 (omega arith)) (omega arith)
      (omega arith)

calculate_pages_needed_lem_example :
    let need = calculate_pages_needed word in
    (length word ≤ need * page_size) × (need * page_size < length word + page_size)
calculate_pages_needed_lem_example = calculate_pages_needed_lem word (omega arith)
