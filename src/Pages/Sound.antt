-- ===== src/Pages/Sound.antt =====
-- The invariant of the allocator: each page below `n` is either marked in the bitmap or in the
-- free list, exactly once, and the free list is sorted.
use os_lab.Base.{ℕ, ◌+◌, ◌*◌, ◌≤◌, ◌<◌, ◌≡◌, ap, false, List, arith, length, length-replicate}
use os_lab.Pages.{Pages, init, get_free_pages, page_size, size_t_mod, calculate_pages_needed}
use os_lab.Pages.Counts.{in_run, count_free, total_free}
use os_lab.Pages.Bitmap.{
  marked, marked-replicate, sum_below, sum_below-add, sum_below-in_run, sum_below-count_free,
  count_false-marked, bitmap_unique,
}
use os_lab.Pages.Order.{Chain, Chain-Within, Chain-unique}

-- `gap` is 1 for a coalesced free list, 0 while a release is under way.
pub record IsSound (gap n : ℕ) (p : Pages) : Type 0 where
  pub size : length p.page_bitmap ≡ n
  pub exact : (q : ℕ) → marked p.page_bitmap q + count_free q p.free_list ≡ in_run q 0 n
  pub order : Chain gap 0 n p.free_list

-- Every page is marked or free and never both, no page is in two free blocks, and the free
-- blocks are sorted, not empty, and apart from each other.
abbrev pub IsValid : ℕ → Pages → Type 0
IsValid n p = IsSound 1 n p

pub init-IsValid : (n : ℕ) → 0 < n → IsValid n (init n)
unfolding init count_free
init-IsValid n h = record {
  size = length-replicate n false;
  exact = λ q. omega (arith, marked-replicate n q);
  order = omega arith;
}

-- `get_free_pages` counts the bitmap; the free list holds as many pages.
pub get_free_pages-total_free :
    (gap n : ℕ) (p : Pages) → IsSound gap n p → get_free_pages p ≡ total_free p.free_list
unfolding get_free_pages
get_free_pages-total_free gap n p v =
    let bm = p.page_bitmap in
    omega (
      arith,
      v.size,
      count_false-marked bm,
      ap (λ k. sum_below k (marked bm)) v.size,
      sum_below-add n (marked bm) (λ q. count_free q p.free_list) (λ q. in_run q 0 n) v.exact,
      sum_below-in_run n 0 n (omega arith),
      sum_below-count_free n p.free_list (Chain-Within gap 0 n p.free_list v.order),
    )

-- The pages that are not free are those that are marked.
pub get_free_pages-marked :
    (gap n : ℕ) (p : Pages)
    → IsSound gap n p
    → get_free_pages p + sum_below n (marked p.page_bitmap) ≡ n
unfolding get_free_pages
get_free_pages-marked gap n p v = omega (
  arith,
  v.size,
  count_false-marked p.page_bitmap,
  ap (λ k. sum_below k (marked p.page_bitmap)) v.size,
)

-- Two valid states with the same marked pages are the same: the free list is a function of the
-- bitmap.
pub IsValid-unique :
    (n : ℕ) (p q : Pages)
    → IsValid n p
    → IsValid n q
    → ((k : ℕ) → marked p.page_bitmap k ≡ marked q.page_bitmap k)
    → p ≡ q
IsValid-unique n p q v w e =
    let maps : p.page_bitmap ≡ q.page_bitmap =
      bitmap_unique p.page_bitmap q.page_bitmap (omega (arith, v.size, w.size)) e in
    let lists : p.free_list ≡ q.free_list =
      Chain-unique 0 n p.free_list q.free_list v.order w.order
        (λ k. omega (arith, e k, v.exact k, w.exact k)) in
    λ i. record { page_bitmap = maps i; free_list = lists i }

-- A value gets the fewest pages that hold it, if the sum with the page size does not wrap.
pub calculate_pages_needed_lem :
    (value : List ℕ)
    → length value + page_size ≤ size_t_mod
    → let need = calculate_pages_needed value in
      (length value ≤ need * page_size) × (need * page_size < length value + page_size)
unfolding calculate_pages_needed
calculate_pages_needed_lem value h = omega arith
