-- ===== src/Pages.antt =====
-- The page allocator of cache.h and cache.cpp: the page bitmap, the list of free blocks, and the
-- functions that move pages between the free list and the linked lists of the entries. A chain of
-- `shared_ptr` nodes is the list of its nodes, `nullptr` the empty list.
pub mod Counts
pub mod Bitmap
pub mod Order
pub mod Sound
pub mod Release
pub mod Allocate
pub mod Free
pub mod Contiguous
pub mod Fragments
pub mod Runs
mod Tests
use os_lab.Base.{
  ℕ, zero, suc, ◌+◌, ◌-◌, ◌*◌, ◌/◌, ◌%◌, ◌^◌, min, Bool, true, false, not, ◌&&◌, List, [], ◌∷◌,
  ◌++◌, length, set, replicate, ltb, leb, ◌==◌, if◌then◌else◌, bit,
}

pub record FreeBlock : Type 0 where
  pub start_page : ℕ
  pub num_pages : ℕ

-- The fields of `PagedCache` that the allocator works on.
pub record Pages : Type 0 where
  pub page_bitmap : List Bool
  pub free_list : List FreeBlock

abbrev pub total_cache_size : ℕ
total_cache_size = 2 * 1024 * 1024 * 1024

abbrev pub page_size : ℕ
page_size = 40 * 1024

abbrev pub total_pages : ℕ
total_pages = total_cache_size / page_size

abbrev pub size_t_mod : ℕ
size_t_mod = 2 ^ 64

-- The constructor, for any number of pages.
unfoldable pub init : ℕ → Pages
init pages = record {
  page_bitmap = replicate pages false;
  free_list = record { start_page = 0; num_pages = pages } ∷ [];
}

-- `size_t` arithmetic: `value.size() + PAGE_SIZE - 1` wraps.
unfoldable pub calculate_pages_needed : List ℕ → ℕ
calculate_pages_needed value = (length value + page_size - 1) % size_t_mod / page_size

-- The numbers of `n` pages from `start` on: the nodes that the inner loop of an allocation makes.
unfoldable pub page_run : ℕ → ℕ → List ℕ
page_run zero start = []
page_run (suc n) start = start ∷ page_run n (start + 1)

-- The bits that the same loop sets. A bit beyond the end is not written.
unfoldable pub mark_run : ℕ → ℕ → Bool → List Bool → List Bool
mark_run zero start v bitmap = bitmap
mark_run (suc n) start v bitmap = mark_run n (start + 1) v (set bitmap start v)

pub record Allocation : Type 0 where
  pub blocks : List ℕ
  pub pages_allocated : ℕ
  pub bitmap : List Bool
  pub free : List FreeBlock

-- The loop of `allocate_pages_linked` over the free list: what it does from `current` on.
unfoldable pub allocate_loop : ℕ → ℕ → List Bool → List FreeBlock → Allocation
allocate_loop num_pages done bitmap [] = record {
  blocks = [];
  pages_allocated = done;
  bitmap = bitmap;
  free = [];
}
allocate_loop num_pages done bitmap (current ∷ next) =
    let n = min current.num_pages (num_pages - done) in
    let rest =
      allocate_loop num_pages (done + n) (mark_run n current.start_page true bitmap) next in
    elim (ltb done num_pages) [
      | false ↦ record {
        blocks = [];
        pages_allocated = done;
        bitmap = bitmap;
        free = current ∷ next;
      }
      | true ↦ record rest {
        blocks = page_run n current.start_page ++ rest.blocks;
        free =
            if n == current.num_pages
            then rest.free
            else record { start_page = current.start_page + n; num_pages = current.num_pages - n }
              ∷ rest.free;
      }
    ]

-- The search of `add_to_free_list` for the place behind `current`.
unfoldable pub insert_after : ℕ → ℕ → FreeBlock → List FreeBlock → List FreeBlock
insert_after start n current [] = current ∷ record { start_page = start; num_pages = n } ∷ []
insert_after start n current (next ∷ rest) =
    if ltb next.start_page start
    then current ∷ insert_after start n next rest
    else current ∷ record { start_page = start; num_pages = n } ∷ next ∷ rest

unfoldable pub add_to_free_list : ℕ → ℕ → List FreeBlock → List FreeBlock
unfolding insert_after
add_to_free_list start n [] = record { start_page = start; num_pages = n } ∷ []
add_to_free_list start n (head ∷ rest) =
    if ltb start head.start_page
    then record { start_page = start; num_pages = n } ∷ head ∷ rest
    else insert_after start n head rest

-- The loop of `coalesce_free_blocks` from `current` on.
unfoldable pub coalesce_from : FreeBlock → List FreeBlock → List FreeBlock
coalesce_from current [] = current ∷ []
coalesce_from current (next ∷ rest) =
    elim (current.start_page + current.num_pages == next.start_page) [
      | true ↦
          coalesce_from (record current { num_pages = current.num_pages + next.num_pages }) rest
      | false ↦ current ∷ coalesce_from next rest
    ]

unfoldable pub coalesce_free_blocks : List FreeBlock → List FreeBlock
unfolding coalesce_from
coalesce_free_blocks [] = []
coalesce_free_blocks (head ∷ rest) = coalesce_from head rest

-- The loop of `deallocate_pages_linked`: each page goes back on its own.
unfoldable pub release_pages : List ℕ → Pages → Pages
unfolding add_to_free_list
release_pages [] p = p
release_pages (page ∷ blocks) p = release_pages blocks (record p {
  page_bitmap = set p.page_bitmap page false;
  free_list = add_to_free_list page 1 p.free_list;
})

unfoldable pub deallocate_pages_linked : List ℕ → Pages → Pages
unfolding release_pages coalesce_free_blocks
deallocate_pages_linked blocks p =
    let q = release_pages blocks p in record q { free_list = coalesce_free_blocks q.free_list }

-- `if (allocated_blocks)` before the roll-back.
unfoldable pub roll_back : List ℕ → Pages → Pages
unfolding deallocate_pages_linked
roll_back [] p = p
roll_back (page ∷ blocks) p = deallocate_pages_linked (page ∷ blocks) p

-- An empty list of pages is the `nullptr` of a failed allocation.
unfoldable pub allocate_pages_linked : ℕ → Pages → List ℕ × Pages
unfolding page_run mark_run allocate_loop roll_back
allocate_pages_linked num_pages p =
    let a = allocate_loop num_pages 0 p.page_bitmap p.free_list in
    let q : Pages = record { page_bitmap = a.bitmap; free_list = a.free } in
    if num_pages == 0
    then ([], p)
    else if a.pages_allocated == num_pages
    then (a.blocks, q)
    else ([], roll_back a.blocks q)

-- The old name of `allocate_pages_linked`.
unfoldable pub allocate_from_free_list : ℕ → Pages → List ℕ × Pages
unfolding allocate_pages_linked
allocate_from_free_list num_pages p = allocate_pages_linked num_pages p

-- `std::count(page_bitmap.begin(), page_bitmap.end(), false)`
unfoldable pub count_false : List Bool → ℕ
count_false [] = 0
count_false (b ∷ bitmap) = bit (not b) + count_false bitmap

unfoldable pub get_free_pages : Pages → ℕ
unfolding count_false
get_free_pages p = count_false p.page_bitmap
