-- ===== src/Pages/Free.antt =====
-- How allocations and releases change the number of free pages.
use os_lab.Base.{ℕ, ◌+◌, ◌≤◌, ◌<◌, ◌≡◌, List, arith, length}
use os_lab.Pages.{Pages, get_free_pages, allocate_pages_linked, deallocate_pages_linked}
use os_lab.Pages.Counts.{in_run, count_page}
use os_lab.Pages.Bitmap.{marked, sum_below-add, sum_below-count_page}
use os_lab.Pages.Sound.{IsValid, IsValid-unique, get_free_pages-marked}
use os_lab.Pages.Release.{AreMarked, deallocate_pages_linked_lem}
use os_lab.Pages.Allocate.{allocate_pages_linked_enough}

-- The marks of `p` and `xs` together are those of `p'`: `p` has as many more free pages as `xs` is
-- long.
free_difference :
    (n : ℕ) (xs : List ℕ) (p p' : Pages)
    → IsValid n p
    → IsValid n p'
    → ((q : ℕ) → marked p.page_bitmap q + count_page q xs ≡ marked p'.page_bitmap q)
    → get_free_pages p' + length xs ≡ get_free_pages p
free_difference n xs p p' v v' e = omega (
  arith,
  get_free_pages-marked 1 n p v,
  get_free_pages-marked 1 n p' v',
  sum_below-add n (marked p.page_bitmap) (λ q. count_page q xs) (marked p'.page_bitmap) e,
  sum_below-count_page n xs
      (λ q h. let out : in_run q 0 n ≡ 0 = ground arith in omega (arith, e q, v'.exact q)),
)

pub get_free_pages-deallocate :
    (n : ℕ) (xs : List ℕ) (p : Pages)
    → IsValid n p
    → AreMarked xs p
    → get_free_pages (deallocate_pages_linked xs p) ≡ get_free_pages p + length xs
get_free_pages-deallocate n xs p v h =
    let (w, e) = deallocate_pages_linked_lem n xs p 1 v h in
    omega (arith, free_difference n xs (deallocate_pages_linked xs p) p w v e)

pub get_free_pages-allocate :
    (n num_pages : ℕ) (p : Pages)
    → IsValid n p
    → 0 < num_pages
    → num_pages ≤ get_free_pages p
    → get_free_pages (allocate_pages_linked num_pages p).1 + num_pages ≡ get_free_pages p
get_free_pages-allocate n num_pages p v h k =
    let (size, w, e) = allocate_pages_linked_enough n num_pages p v h k in
    let (xs, p') = allocate_pages_linked num_pages p in
    omega (arith, free_difference n xs p p' v w (λ q. omega (arith, e q)))

-- To release what was allocated restores the allocator: bitmap and free list are as before.
pub deallocate-allocate :
    (n num_pages : ℕ) (p : Pages)
    → IsValid n p
    → 0 < num_pages
    → num_pages ≤ get_free_pages p
    → let (xs, p') = allocate_pages_linked num_pages p in deallocate_pages_linked xs p' ≡ p
deallocate-allocate n num_pages p v h k =
    let (size, w, e) = allocate_pages_linked_enough n num_pages p v h k in
    let (xs, p') = allocate_pages_linked num_pages p in
    let (w', e') = deallocate_pages_linked_lem n xs p' 1 w (λ q. omega (arith, e q)) in
    IsValid-unique n (deallocate_pages_linked xs p') p w' v (λ q. omega (arith, e q, e' q))
