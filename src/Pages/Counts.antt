-- ===== src/Pages/Counts.antt =====
-- How often a page stands in a free list or in a list of pages. Each operation of the allocator
-- is an equation between such counts.
use os_lab.Base.{
  ℕ, zero, suc, ◌+◌, ◌-◌, ◌≤◌, min, ◌≡◌, refl, ap, Bool, true, ◌&&◌, List, [], ◌∷◌, ◌++◌, arith,
  length, length-append, ltb, leb, ◌==◌, bit, Bool-cases, inl, inr,
}
use os_lab.Pages.{
  FreeBlock, page_run, mark_run, allocate_loop, insert_after, add_to_free_list, coalesce_from,
  coalesce_free_blocks,
}

-- 1 if the page lies in the run of `n` pages from `start` on, else 0.
abbrev pub in_run : ℕ → ℕ → ℕ → ℕ
in_run p start n = bit (leb start p && ltb p (start + n))

unfoldable pub count_free : ℕ → List FreeBlock → ℕ
count_free p [] = 0
count_free p (b ∷ l) = in_run p b.start_page b.num_pages + count_free p l

unfoldable pub count_page : ℕ → List ℕ → ℕ
count_page p [] = 0
count_page p (q ∷ l) = bit (p == q) + count_page p l

-- The pages of all free blocks together.
unfoldable pub total_free : List FreeBlock → ℕ
total_free [] = 0
total_free (b ∷ l) = b.num_pages + total_free l

pub count_page-append :
    (p : ℕ) (xs ys : List ℕ) → count_page p (xs ++ ys) ≡ count_page p xs + count_page p ys
unfolding count_page
count_page-append p [] ys = omega arith
count_page-append p (x ∷ xs) ys = omega (arith, count_page-append p xs ys)

pub count_page-page_run : (p n start : ℕ) → count_page p (page_run n start) ≡ in_run p start n
unfolding count_page page_run
count_page-page_run p zero start = ground arith
count_page-page_run p (suc n) start = ground (arith, count_page-page_run p n (start + 1))

pub length-page_run : (n start : ℕ) → length (page_run n start) ≡ n
unfolding page_run
length-page_run zero start = refl
length-page_run (suc n) start = ap suc (length-page_run n (start + 1))

count_free-insert_after :
    (p start n : ℕ) (b : FreeBlock) (l : List FreeBlock)
    → count_free p (insert_after start n b l)
      ≡ in_run p start n + in_run p b.start_page b.num_pages + count_free p l
unfolding count_free insert_after
count_free-insert_after p start n b [] = omega arith
count_free-insert_after p start n b (c ∷ l) = elim (Bool-cases (ltb c.start_page start)) [
  | inl t ↦ rw t (omega (arith, count_free-insert_after p start n c l))
  | inr t ↦ rw t (omega arith)
]

pub count_free-add_to_free_list :
    (p start n : ℕ) (l : List FreeBlock)
    → count_free p (add_to_free_list start n l) ≡ in_run p start n + count_free p l
unfolding count_free add_to_free_list
count_free-add_to_free_list p start n [] = omega arith
count_free-add_to_free_list p start n (b ∷ l) = elim (Bool-cases (ltb start b.start_page)) [
  | inl t ↦ rw t (omega arith)
  | inr t ↦ rw t (omega (arith, count_free-insert_after p start n b l))
]

pub in_run-add : (p s n m : ℕ) → in_run p s (n + m) ≡ in_run p s n + in_run p (s + n) m
in_run-add p s n m = ground arith

count_free-coalesce_from :
    (p : ℕ) (b : FreeBlock) (l : List FreeBlock)
    → count_free p (coalesce_from b l) ≡ in_run p b.start_page b.num_pages + count_free p l
unfolding count_free coalesce_from
count_free-coalesce_from p b [] = refl
count_free-coalesce_from p b (c ∷ l) = ground (
  arith,
  count_free-coalesce_from p (record b { num_pages = b.num_pages + c.num_pages }) l,
  count_free-coalesce_from p c l,
  in_run-add p b.start_page b.num_pages c.num_pages,
)

pub count_free-coalesce_free_blocks :
    (p : ℕ) (l : List FreeBlock) → count_free p (coalesce_free_blocks l) ≡ count_free p l
unfolding count_free coalesce_free_blocks
count_free-coalesce_free_blocks p [] = refl
count_free-coalesce_free_blocks p (b ∷ l) = count_free-coalesce_from p b l

module _ (num_pages : ℕ) where
  -- An allocation moves pages from the free list to its result: none is lost, none made up.
  pub allocate_loop-count :
      (p done : ℕ) (bm : List Bool) (l : List FreeBlock)
      → let a = allocate_loop num_pages done bm l in
        count_free p a.free + count_page p a.blocks ≡ count_free p l
  unfolding count_free count_page allocate_loop
  allocate_loop-count p done bm [] = refl
  allocate_loop-count p done bm (b ∷ l) =
      let n = min b.num_pages (num_pages - done) in
      let bm' = mark_run n b.start_page true bm in
      let e : n + (b.num_pages - n) ≡ b.num_pages = omega arith in
      ground (
        arith,
        allocate_loop-count p (done + n) bm' l,
        count_page-append p (page_run n b.start_page)
            (allocate_loop num_pages (done + n) bm' l).blocks,
        count_page-page_run p n b.start_page,
        in_run-add p b.start_page n (b.num_pages - n),
      )

  pub allocate_loop-length :
      (done : ℕ) (bm : List Bool) (l : List FreeBlock)
      → let a = allocate_loop num_pages done bm l in done + length a.blocks ≡ a.pages_allocated
  unfolding allocate_loop
  allocate_loop-length done bm [] = omega arith
  allocate_loop-length done bm (b ∷ l) =
      let n = min b.num_pages (num_pages - done) in
      let bm' = mark_run n b.start_page true bm in
      ground (
        arith,
        allocate_loop-length (done + n) bm' l,
        length-append (page_run n b.start_page) (allocate_loop num_pages (done + n) bm' l).blocks,
        length-page_run n b.start_page,
      )

  -- It stops when it has enough, or when the free list is used up.
  pub allocate_loop-pages_allocated :
      (done : ℕ) (bm : List Bool) (l : List FreeBlock)
      → done ≤ num_pages
      → (allocate_loop num_pages done bm l).pages_allocated ≡ min num_pages (done + total_free l)
  unfolding allocate_loop total_free
  allocate_loop-pages_allocated done bm [] h = omega arith
  allocate_loop-pages_allocated done bm (b ∷ l) h =
      let n = min b.num_pages (num_pages - done) in
      ground (
        arith,
        allocate_loop-pages_allocated (done + n) (mark_run n b.start_page true bm) l (omega arith),
      )
