-- ===== src/Pages/Contiguous.antt =====
-- The methods of cache.cpp for contiguous pages, which nothing calls any more:
-- `find_contiguous_pages`, `allocate_pages` and `deallocate_pages`.
use os_lab.Base.{
  ℕ, ◌+◌, ◌-◌, ◌≤◌, ◌<◌, ◌≡◌, Bool, true, false, ◌&&◌, ◌||◌, Option, none, some, List, [], ◌∷◌,
  ◌++◌, arith, ltb, leb, if◌then◌else◌, Bool-cases, inl, inr,
}
use os_lab.Pages.{FreeBlock, Pages, mark_run, add_to_free_list, coalesce_free_blocks}
use os_lab.Pages.Counts.{in_run, count_free}
use os_lab.Pages.Order.{Chain, Chain-lower}

unfoldable pub find_contiguous_pages : ℕ → List FreeBlock → Option ℕ
find_contiguous_pages num_pages [] = none
find_contiguous_pages num_pages (current ∷ rest) =
    let more = find_contiguous_pages num_pages rest in
    if leb num_pages current.num_pages then some current.start_page else more

-- Whether the pages from `start` on lie in the block.
abbrev pub fits : ℕ → ℕ → FreeBlock → Bool
fits start n b = leb b.start_page start && leb (start + n) (b.start_page + b.num_pages)

-- What stays of the block before the pages, and behind them.
abbrev pub before_pages : ℕ → FreeBlock → List FreeBlock
before_pages start b =
    if ltb 0 (start - b.start_page)
    then record { start_page = b.start_page; num_pages = start - b.start_page } ∷ []
    else []

abbrev pub after_pages : ℕ → ℕ → FreeBlock → List FreeBlock
after_pages start n b =
    let after = b.start_page + b.num_pages - (start + n) in
    if ltb 0 after then record { start_page = start + n; num_pages = after } ∷ [] else []

unfoldable pub split_block : ℕ → ℕ → List FreeBlock → List FreeBlock
split_block start n [] = []
split_block start n (current ∷ rest) =
    let more = current ∷ split_block start n rest in
    if fits start n current
    then before_pages start current ++ (after_pages start n current ++ rest)
    else more

unfoldable pub allocate_pages : ℕ → ℕ → Pages → Pages
unfolding split_block mark_run
allocate_pages start n p = record {
  page_bitmap = mark_run n start true p.page_bitmap;
  free_list = split_block start n p.free_list;
}

unfoldable pub deallocate_pages : ℕ → ℕ → Pages → Pages
unfolding mark_run
deallocate_pages start n p = record {
  page_bitmap = mark_run n start false p.page_bitmap;
  free_list = coalesce_free_blocks (add_to_free_list start n p.free_list);
}

-- Whether the pages lie in one of the free blocks.
abbrev pub holds : ℕ → ℕ → List FreeBlock → Bool
holds start n [] = false
holds start n (b ∷ l) = fits start n b || holds start n l

fits_lem :
    (start n : ℕ) (b : FreeBlock)
    → fits start n b ≡ true
    → (b.start_page ≤ start) × (start + n ≤ b.start_page + b.num_pages)
fits_lem start n b h = ground arith

after_pages-Chain :
    (hi start n : ℕ) (b : FreeBlock) (l : List FreeBlock)
    → start + n ≤ b.start_page + b.num_pages
    → b.start_page + b.num_pages ≤ hi
    → Chain 1 (b.start_page + b.num_pages + 1) hi l
    → Chain 1 (start + n) hi (after_pages start n b ++ l)
after_pages-Chain hi start n b l h k c =
    let end = b.start_page + b.num_pages in
    elim (Bool-cases (ltb 0 (end - (start + n)))) [
      | inl t ↦ rw t (
        omega arith,
        ground arith,
        omega arith,
        Chain-lower 1 (end + 1) (start + n + (end - (start + n)) + 1) hi l (omega arith) c,
      )
      | inr t ↦ rw t (Chain-lower 1 (end + 1) (start + n) hi l (omega arith) c)
    ]

before_pages-Chain :
    (lo hi start n : ℕ) (b : FreeBlock) (l : List FreeBlock)
    → 0 < n
    → lo ≤ b.start_page
    → b.start_page ≤ start
    → start ≤ hi
    → Chain 1 (start + n) hi l
    → Chain 1 lo hi (before_pages start b ++ l)
before_pages-Chain lo hi start n b l pos h k m c =
    elim (Bool-cases (ltb 0 (start - b.start_page))) [
      | inl t ↦ rw t (
        omega arith,
        ground arith,
        omega arith,
        Chain-lower 1 (start + n) (b.start_page + (start - b.start_page) + 1) hi l (omega arith) c,
      )
      | inr t ↦ rw t (Chain-lower 1 (start + n) lo hi l (ground arith) c)
    ]

pub split_block-Chain :
    (lo hi start n : ℕ) (l : List FreeBlock)
    → 0 < n
    → Chain 1 lo hi l
    → Chain 1 lo hi (split_block start n l)
unfolding split_block
split_block-Chain lo hi start n [] pos c = tt
split_block-Chain lo hi start n (b ∷ l) pos c = elim (Bool-cases (fits start n b)) [
  | inl t ↦
      let (low, high) = fits_lem start n b t in
      rw (t, split_block)
        (before_pages-Chain lo hi start n b (after_pages start n b ++ l) pos c.0 low (omega arith)
          (after_pages-Chain hi start n b l high c.2 c.3))
  | inr t ↦
      rw (t, split_block)
        (c.0, c.1, c.2, split_block-Chain (b.start_page + b.num_pages + 1) hi start n l pos c.3)
]

before_pages-count :
    (q start : ℕ) (b : FreeBlock) (l : List FreeBlock)
    → count_free q (before_pages start b ++ l)
      ≡ in_run q b.start_page (start - b.start_page) + count_free q l
unfolding count_free
before_pages-count q start b l = elim (Bool-cases (ltb 0 (start - b.start_page))) [
  | inl t ↦ rw t (omega arith)
  | inr t ↦ rw t (ground arith)
]

after_pages-count :
    (q start n : ℕ) (b : FreeBlock) (l : List FreeBlock)
    → count_free q (after_pages start n b ++ l)
      ≡ in_run q (start + n) (b.start_page + b.num_pages - (start + n)) + count_free q l
unfolding count_free
after_pages-count q start n b l =
    elim (Bool-cases (ltb 0 (b.start_page + b.num_pages - (start + n)))) [
      | inl t ↦ rw t (omega arith)
      | inr t ↦ rw t (ground arith)
    ]

in_run-split :
    (q start n s m : ℕ)
    → s ≤ start
    → start + n ≤ s + m
    → in_run q s (start - s) + in_run q (start + n) (s + m - (start + n)) + in_run q start n
      ≡ in_run q s m
in_run-split q start n s m h k = ground arith

pub split_block-count :
    (q start n : ℕ) (l : List FreeBlock)
    → holds start n l ≡ true
    → count_free q (split_block start n l) + in_run q start n ≡ count_free q l
unfolding split_block count_free
split_block-count q start n [] h = cc
split_block-count q start n (b ∷ l) h = elim (Bool-cases (fits start n b)) [
  | inl t ↦
      let (low, high) = fits_lem start n b t in
      rw (t, split_block)
        (omega (
          arith,
          before_pages-count q start b (after_pages start n b ++ l),
          after_pages-count q start n b l,
          in_run-split q start n b.start_page b.num_pages low high,
        ))
  | inr t ↦ rw (t, split_block) (omega (arith, split_block-count q start n l (rw t at h)))
]

pub holds-Chain :
    (lo hi start n : ℕ) (l : List FreeBlock)
    → Chain 1 lo hi l
    → holds start n l ≡ true
    → start + n ≤ hi
holds-Chain lo hi start n [] c h = cc
holds-Chain lo hi start n (b ∷ l) c h = elim (Bool-cases (fits start n b)) [
  | inl t ↦ let (low, high) = fits_lem start n b t in omega arith
  | inr t ↦ holds-Chain (b.start_page + b.num_pages + 1) hi start n l c.3 (rw t at h)
]
