-- ===== src/Pages/Fragments.antt =====
-- `get_fragmentation_stats` of cache.cpp, up to its ratio, which is a `double`: of the pages of all
-- free blocks and of the largest.
use os_lab.Base.{ℕ, ◌+◌, ◌≤◌, max, ◌≡◌, ◌↔◌, List, [], ◌∷◌, length, arith}
use os_lab.Pages.{FreeBlock, Pages, get_free_pages}
use os_lab.Pages.Counts.{total_free}
use os_lab.Pages.Order.{Chain}
use os_lab.Pages.Sound.{IsValid, get_free_pages-total_free}

pub record FragmentationStats : Type 0 where
  pub free_blocks_count : ℕ
  pub largest_free_block : ℕ
  pub total_free_pages : ℕ

unfoldable pub stats_loop : List FreeBlock → FragmentationStats → FragmentationStats
stats_loop [] s = s
stats_loop (current ∷ rest) s = stats_loop rest (record {
  free_blocks_count = s.free_blocks_count + 1;
  largest_free_block = max s.largest_free_block current.num_pages;
  total_free_pages = s.total_free_pages + current.num_pages;
})

unfoldable pub get_fragmentation_stats : Pages → FragmentationStats
unfolding stats_loop
get_fragmentation_stats p =
    stats_loop p.free_list
      (record { free_blocks_count = 0; largest_free_block = 0; total_free_pages = 0 })

-- The pages of the largest block.
abbrev pub largest : List FreeBlock → ℕ
largest [] = 0
largest (b ∷ l) = max b.num_pages (largest l)

pub record Counts (l : List FreeBlock) (s t : FragmentationStats) : Type 0 where
  pub count : t.free_blocks_count ≡ s.free_blocks_count + length l
  pub largest_lem : t.largest_free_block ≡ max s.largest_free_block (largest l)
  pub total : t.total_free_pages ≡ s.total_free_pages + total_free l

pub stats_loop-Counts : (l : List FreeBlock) (s : FragmentationStats) → Counts l s (stats_loop l s)
unfolding stats_loop total_free
stats_loop-Counts [] s = record {
  count = omega arith;
  largest_lem = omega arith;
  total = omega arith;
}
stats_loop-Counts (b ∷ l) s =
    let more = stats_loop-Counts l (record {
      free_blocks_count = s.free_blocks_count + 1;
      largest_free_block = max s.largest_free_block b.num_pages;
      total_free_pages = s.total_free_pages + b.num_pages;
    }) in
    record {
      count = omega (arith, more.count);
      largest_lem = omega (arith, more.largest_lem);
      total = omega (arith, more.total);
    }

-- In a sorted list the largest block has all pages only if there is no other.
largest-total_free :
    (lo hi : ℕ) (l : List FreeBlock)
    → Chain 1 lo hi l
    → (largest l ≤ total_free l) × (largest l ≡ total_free l ↔ length l ≤ 1)
unfolding total_free
largest-total_free lo hi [] c = (omega arith, (λ e. omega arith, λ e. omega arith))
largest-total_free lo hi (b ∷ []) c = (omega arith, (λ e. omega arith, λ e. omega arith))
largest-total_free lo hi (b ∷ x ∷ l) c =
    let h = largest-total_free (b.start_page + b.num_pages + 1) hi (x ∷ l) c.3 in
    (omega (arith, h.0), (λ e. absurd (omega (arith, h.0)), λ e. absurd (omega arith)))

-- Of a valid allocator, the free blocks of `get_fragmentation_stats` have together the pages that
-- `get_free_pages` counts in the bitmap. The largest has all of them, so that the ratio is 0, if
-- and only if there is at most one.
pub get_fragmentation_stats_lem :
    (n : ℕ) (p : Pages)
    → IsValid n p
    → let s = get_fragmentation_stats p in
      (s.total_free_pages ≡ get_free_pages p)
      × (s.largest_free_block ≤ s.total_free_pages)
      × (s.largest_free_block ≡ s.total_free_pages ↔ s.free_blocks_count ≤ 1)
unfolding get_fragmentation_stats
get_fragmentation_stats_lem n p v =
    let c =
      stats_loop-Counts p.free_list
        (record { free_blocks_count = 0; largest_free_block = 0; total_free_pages = 0 }) in
    let (h, (alone, single)) = largest-total_free 0 n p.free_list v.order in
    (
      omega (arith, c.total, get_free_pages-total_free 1 n p v),
      omega (arith, c.total, c.largest_lem),
      (
        λ e. omega (arith, c.count, alone (omega (arith, c.total, c.largest_lem))),
        λ e. omega (arith, c.total, c.largest_lem, single (omega (arith, c.count))),
      ),
    )
