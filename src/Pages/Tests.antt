-- ===== src/Pages/Tests.antt =====
-- The methods for contiguous pages at small allocators.
use os_lab.Base.{ℕ, ◌+◌, ◌≡◌, refl, true, none, [], ◌∷◌, arith}
use os_lab.Pages.{Pages, init}
use os_lab.Pages.Counts.{in_run}
use os_lab.Pages.Bitmap.{marked}
use os_lab.Pages.Sound.{IsValid, init-IsValid}
use os_lab.Pages.Contiguous.{find_contiguous_pages, allocate_pages, holds}
use os_lab.Pages.Runs.{allocate_pages_lem}

abbrev five : Pages
five = init 5

five-IsValid : IsValid 5 five
five-IsValid = init-IsValid 5 (omega arith)

middle_free : holds 1 2 five.free_list ≡ true
unfolding init
middle_free = refl

-- Two pages in the middle leave a block on each side.
allocate_pages_middle :
    (allocate_pages 1 2 five).free_list
    ≡ record { start_page = 0; num_pages = 1 } ∷ record { start_page = 3; num_pages = 2 } ∷ []
unfolding init allocate_pages
allocate_pages_middle = refl

find_contiguous_pages-none : find_contiguous_pages 3 (allocate_pages 1 2 five).free_list ≡ none
unfolding init allocate_pages find_contiguous_pages
find_contiguous_pages-none = refl

allocate_pages_lem_example :
    IsValid 5 (allocate_pages 1 2 five)
    × ((q : ℕ)
        → marked (allocate_pages 1 2 five).page_bitmap q ≡ marked five.page_bitmap q + in_run q 1 2)
allocate_pages_lem_example = allocate_pages_lem 5 1 2 five five-IsValid (omega arith) middle_free
