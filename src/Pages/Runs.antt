-- ===== src/Pages/Runs.antt =====
-- What the methods of cache.cpp for contiguous pages keep of the allocator.
use os_lab.Base.{
  max, ℕ, ◌+◌, ◌≤◌, ◌<◌, ◌≡◌, true, false, Option, none, some, List, [], ◌∷◌, arith, leb,
  Bool-cases, inl, inr,
}
use os_lab.Pages.{FreeBlock, Pages, mark_run, add_to_free_list}
use os_lab.Pages.Counts.{in_run, count_free-add_to_free_list, count_free-coalesce_free_blocks}
use os_lab.Pages.Bitmap.{
  marked, length-mark_run, marked-mark_run, marked-mark_run_out, marked-mark_run_in,
}
use os_lab.Pages.Order.{Chain-weaken, add_to_free_list-Chain, coalesce_free_blocks-Chain}
use os_lab.Pages.Sound.{IsValid, IsValid-unique}
use os_lab.Pages.Contiguous.{
  find_contiguous_pages, fits, split_block, allocate_pages, deallocate_pages, holds,
  split_block-Chain, split_block-count, holds-Chain,
}
use os_lab.Pages.Fragments.{get_fragmentation_stats, largest, stats_loop-Counts}

module _ (n start num_pages : ℕ) (p : Pages) (v : IsValid n p) (pos : 0 < num_pages)
    (held : holds start num_pages p.free_list ≡ true) where
  run_below : start + num_pages ≤ n
  run_below = holds-Chain 0 n start num_pages p.free_list v.order held

  run_free : (q : ℕ) → marked p.page_bitmap q + in_run q start num_pages ≤ 1
  run_free q =
      let once : in_run q 0 n ≤ 1 = ground arith in
      omega (arith, v.exact q, split_block-count q start num_pages p.free_list held)

  -- For a positive number of pages that lie in one free block of a valid allocator,
  -- `allocate_pages` marks just these in the bitmap, and the allocator stays valid.
  pub allocate_pages_lem :
      IsValid n (allocate_pages start num_pages p)
      × ((q : ℕ)
          → marked (allocate_pages start num_pages p).page_bitmap q
            ≡ marked p.page_bitmap q + in_run q start num_pages)
  unfolding allocate_pages
  allocate_pages_lem =
      let marks = λ (q : ℕ).
        marked-mark_run q num_pages start p.page_bitmap (omega (arith, run_below, v.size))
          (run_free q) in
      (
        record {
          size = omega (arith, length-mark_run num_pages start true p.page_bitmap, v.size);
          exact = λ q.
              omega
                (arith, marks q, v.exact q, split_block-count q start num_pages p.free_list held);
          order = split_block-Chain 0 n start num_pages p.free_list pos v.order;
        },
        marks,
      )

  marked-again :
      (q : ℕ)
      → marked (mark_run num_pages start false (mark_run num_pages start true p.page_bitmap)) q
        ≡ marked p.page_bitmap q
  marked-again q =
      let bm = mark_run num_pages start true p.page_bitmap in
      ground (
        arith,
        run_free q,
        run_below,
        v.size,
        length-mark_run num_pages start true p.page_bitmap,
        marked-mark_run_in q num_pages start false bm,
        marked-mark_run_out q num_pages start false bm,
        marked-mark_run_out q num_pages start true p.page_bitmap,
      )

  -- In a valid allocator, to deallocate a positive number of pages that lay in one free block and
  -- were allocated restores the allocator: bitmap and free list are as before.
  pub deallocate_pages-allocate_pages :
      deallocate_pages start num_pages (allocate_pages start num_pages p) ≡ p
  unfolding allocate_pages deallocate_pages
  deallocate_pages-allocate_pages =
      let bm = mark_run num_pages start true p.page_bitmap in
      let l = split_block start num_pages p.free_list in
      let count = λ (q : ℕ). split_block-count q start num_pages p.free_list held in
      let added = add_to_free_list start num_pages l in
      let w : IsValid n (deallocate_pages start num_pages (allocate_pages start num_pages p)) =
        record {
          size = omega (
            arith,
            length-mark_run num_pages start false bm,
            length-mark_run num_pages start true p.page_bitmap,
            v.size,
          );
          exact = λ q. omega (
            arith,
            marked-again q,
            v.exact q,
            count q,
            count_free-add_to_free_list q start num_pages l,
            count_free-coalesce_free_blocks q added,
          );
          order = coalesce_free_blocks-Chain 0 n added (
              add_to_free_list-Chain 0 n start num_pages l (omega arith) pos run_below
                (λ q.
                  let once : in_run q 0 n ≤ 1 = ground arith in omega (arith, v.exact q, count q))
                (Chain-weaken 1 0 n l
                  (split_block-Chain 0 n start num_pages p.free_list pos v.order)));
        } in
      IsValid-unique n (deallocate_pages start num_pages (allocate_pages start num_pages p)) p w v
        marked-again

-- What the search finds in a list whose largest block has `most` pages.
abbrev pub Found : ℕ → ℕ → List FreeBlock → Option ℕ → Type 0
Found num_pages most l none = most < num_pages
Found num_pages most l (some start) = (num_pages ≤ most) × (holds start num_pages l ≡ true)

Found-cons :
    (num_pages most : ℕ) (b : FreeBlock) (l : List FreeBlock) (r : Option ℕ)
    → leb num_pages b.num_pages ≡ false
    → Found num_pages most l r
    → Found num_pages (max b.num_pages most) (b ∷ l) r
Found-cons num_pages most b l none small h = ground arith
Found-cons num_pages most b l (some start) small h = (omega (arith, h.0), ground arith)

find_contiguous_pages-Found :
    (num_pages : ℕ) (l : List FreeBlock)
    → 0 < num_pages
    → Found num_pages (largest l) l (find_contiguous_pages num_pages l)
unfolding find_contiguous_pages
find_contiguous_pages-Found num_pages [] pos = omega arith
find_contiguous_pages-Found num_pages (b ∷ l) pos = elim (Bool-cases (leb num_pages b.num_pages)) [
  | inl t ↦
      let first : fits b.start_page num_pages b ≡ true = ground arith in
      rw (t, find_contiguous_pages) (ground arith)
  | inr t ↦
      rw (t, find_contiguous_pages)
        (Found-cons num_pages (largest l) b l (find_contiguous_pages num_pages l) t
          (find_contiguous_pages-Found num_pages l pos))
]

-- A search for a positive number of pages succeeds if and only if the largest free block that
-- `get_fragmentation_stats` reports has as many, and what it finds lies in one free block.
pub find_contiguous_pages_lem :
    (num_pages : ℕ) (p : Pages)
    → 0 < num_pages
    → Found num_pages
        (get_fragmentation_stats p).largest_free_block
        p.free_list
        (find_contiguous_pages num_pages p.free_list)
unfolding get_fragmentation_stats
find_contiguous_pages_lem num_pages p pos =
    let same : (get_fragmentation_stats p).largest_free_block ≡ largest p.free_list = omega (
      arith,
      (stats_loop-Counts p.free_list (record {
        free_blocks_count = 0;
        largest_free_block = 0;
        total_free_pages = 0;
      })).largest_lem,
    ) in
    rw same (find_contiguous_pages-Found num_pages p.free_list pos)
