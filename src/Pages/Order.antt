-- ===== src/Pages/Order.antt =====
-- The order of the free list: sorted, with no two blocks that overlap and, once it is coalesced,
-- no two that touch. Such a list is determined by the pages that it holds.
use os_lab.Base.{
  ℕ, ◌+◌, ◌-◌, ◌≤◌, ◌<◌, min, ◌≡◌, refl, Bool, true, List, [], ◌∷◌, arith, ltb, ◌==◌, Bool-cases,
  inl, inr,
}
use os_lab.Pages.{
  FreeBlock, mark_run, allocate_loop, insert_after, add_to_free_list, coalesce_from,
  coalesce_free_blocks,
}
use os_lab.Pages.Counts.{in_run, count_free}
use os_lab.Pages.Bitmap.{Within}

-- Non-empty blocks in ascending order between `lo` and `hi`, each at least `gap` pages behind the
-- one before it.
abbrev pub Chain : ℕ → ℕ → ℕ → List FreeBlock → Type 0
Chain gap lo hi [] = Unit
Chain gap lo hi (b ∷ l) =
    (lo ≤ b.start_page)
    × (0 < b.num_pages)
    × (b.start_page + b.num_pages ≤ hi)
    × Chain gap (b.start_page + b.num_pages + gap) hi l

pub Chain-lower :
    (gap lo lo' hi : ℕ) (l : List FreeBlock) → lo' ≤ lo → Chain gap lo hi l → Chain gap lo' hi l
Chain-lower gap lo lo' hi [] h c = tt
Chain-lower gap lo lo' hi (b ∷ l) h c = (omega arith, c.1, c.2, c.3)

pub Chain-weaken : (gap lo hi : ℕ) (l : List FreeBlock) → Chain gap lo hi l → Chain 0 lo hi l
Chain-weaken gap lo hi [] c = tt
Chain-weaken gap lo hi (b ∷ l) c =
    let end = b.start_page + b.num_pages in
    (
      c.0,
      c.1,
      c.2,
      Chain-lower 0 (end + gap) (end + 0) hi l (omega arith)
          (Chain-weaken gap (end + gap) hi l c.3),
    )

pub Chain-Within : (gap lo hi : ℕ) (l : List FreeBlock) → Chain gap lo hi l → Within hi l
Chain-Within gap lo hi [] c = tt
Chain-Within gap lo hi (b ∷ l) c =
    (c.2, Chain-Within gap (b.start_page + b.num_pages + gap) hi l c.3)

-- Nothing below the first block is free.
pub count_free_below :
    (gap lo hi p : ℕ) (l : List FreeBlock) → Chain gap lo hi l → p < lo → count_free p l ≡ 0
unfolding count_free
count_free_below gap lo hi p [] c h = refl
count_free_below gap lo hi p (b ∷ l) c h =
    let out : in_run p b.start_page b.num_pages ≡ 0 = ground arith in
    omega (arith, count_free_below gap (b.start_page + b.num_pages + gap) hi p l c.3 (omega arith))

insert_after-Chain :
    (lo hi start n : ℕ) (b : FreeBlock) (l : List FreeBlock)
    → b.start_page ≤ start
    → 0 < n
    → start + n ≤ hi
    → ((q : ℕ) → in_run q start n + count_free q (b ∷ l) ≤ 1)
    → Chain 0 lo hi (b ∷ l)
    → Chain 0 lo hi (insert_after start n b l)
unfolding insert_after count_free
insert_after-Chain lo hi start n b [] h pos k e c = ground (arith, e start)
insert_after-Chain lo hi start n b (x ∷ l) h pos k e c =
    elim (Bool-cases (ltb x.start_page start)) [
      | inl t ↦ rw t (
        c.0,
        c.1,
        c.2,
        insert_after-Chain (b.start_page + b.num_pages + 0) hi start n x l (ground arith) pos k
            (λ q. omega (arith, e q)) c.3,
      )
      | inr t ↦ rw t (ground (arith, e start, e x.start_page))
    ]

-- Pages that are not free find their place in a sorted list.
pub add_to_free_list-Chain :
    (lo hi start n : ℕ) (l : List FreeBlock)
    → lo ≤ start
    → 0 < n
    → start + n ≤ hi
    → ((q : ℕ) → in_run q start n + count_free q l ≤ 1)
    → Chain 0 lo hi l
    → Chain 0 lo hi (add_to_free_list start n l)
unfolding add_to_free_list count_free
add_to_free_list-Chain lo hi start n [] h pos k e c = omega arith
add_to_free_list-Chain lo hi start n (b ∷ l) h pos k e c =
    elim (Bool-cases (ltb start b.start_page)) [
      | inl t ↦ rw t (ground (arith, e b.start_page))
      | inr t ↦ rw t (insert_after-Chain lo hi start n b l (ground arith) pos k e c)
    ]

coalesce_from-Chain :
    (lo hi : ℕ) (b : FreeBlock) (l : List FreeBlock)
    → Chain 0 lo hi (b ∷ l)
    → Chain 1 lo hi (coalesce_from b l)
unfolding coalesce_from
coalesce_from-Chain lo hi b [] c = ground arith
coalesce_from-Chain lo hi b (x ∷ l) c =
    elim (Bool-cases (b.start_page + b.num_pages == x.start_page)) [
      | inl t ↦
          rw (t, coalesce_from)
            (coalesce_from-Chain lo hi (record b { num_pages = b.num_pages + x.num_pages }) l
              (
                c.0,
                omega arith,
                ground arith,
                Chain-lower 0 (x.start_page + x.num_pages + 0)
                    (b.start_page + (b.num_pages + x.num_pages) + 0) hi l (ground arith) c.3.3,
              ))
      | inr t ↦
          rw (t, coalesce_from)
            (
              c.0,
              c.1,
              c.2,
              coalesce_from-Chain (b.start_page + b.num_pages + 1) hi x l
                  (ground arith, c.3.1, c.3.2, c.3.3),
            )
    ]

-- After coalescing no two free blocks touch.
pub coalesce_free_blocks-Chain :
    (lo hi : ℕ) (l : List FreeBlock) → Chain 0 lo hi l → Chain 1 lo hi (coalesce_free_blocks l)
unfolding coalesce_free_blocks
coalesce_free_blocks-Chain lo hi [] c = tt
coalesce_free_blocks-Chain lo hi (b ∷ l) c = coalesce_from-Chain lo hi b l c

-- An allocation takes from the front, and keeps the gaps.
pub allocate_loop-Chain :
    (num_pages gap lo hi done : ℕ) (bm : List Bool) (l : List FreeBlock)
    → Chain gap lo hi l
    → Chain gap lo hi (allocate_loop num_pages done bm l).free
unfolding allocate_loop
allocate_loop-Chain num_pages gap lo hi done bm [] c = tt
allocate_loop-Chain num_pages gap lo hi done bm (b ∷ l) c =
    let n = min b.num_pages (num_pages - done) in
    let bm' = mark_run n b.start_page true bm in
    let end = b.start_page + b.num_pages in
    let rest = (allocate_loop num_pages (done + n) bm' l).free in
    let kept : Chain gap (end + gap) hi rest =
      allocate_loop-Chain num_pages gap (end + gap) hi (done + n) bm' l c.3 in
    let same : b.start_page + n + (b.num_pages - n) ≡ end = omega arith in
    elim (Bool-cases (ltb done num_pages)) [
      | inr t ↦ rw (t, allocate_loop) c
      | inl t ↦ elim (Bool-cases (n == b.num_pages)) [
        | inl all ↦
            rw (t, allocate_loop, all) (Chain-lower gap (end + gap) lo hi rest (omega arith) kept)
        | inr some_left ↦
            rw (t, allocate_loop, some_left) (omega arith, ground arith, omega arith, rw same kept)
      ]
    ]

-- The pages of a coalesced list determine it.
pub Chain-unique :
    (lo hi : ℕ) (l m : List FreeBlock)
    → Chain 1 lo hi l
    → Chain 1 lo hi m
    → ((p : ℕ) → count_free p l ≡ count_free p m)
    → l ≡ m
unfolding count_free
Chain-unique lo hi [] [] c d e = refl
Chain-unique lo hi [] (x ∷ m) c d e = absurd (ground (arith, e x.start_page))
Chain-unique lo hi (b ∷ l) [] c d e = absurd (ground (arith, e b.start_page))
Chain-unique lo hi (b ∷ l) (x ∷ m) c d e =
    let b_end = b.start_page + b.num_pages in
    let x_end = x.start_page + x.num_pages in
    let start : b.start_page ≡ x.start_page = ground (
      arith,
      e b.start_page,
      e x.start_page,
      count_free_below 1 (b_end + 1) hi x.start_page l c.3,
      count_free_below 1 (x_end + 1) hi b.start_page m d.3,
    ) in
    let size : b.num_pages ≡ x.num_pages = ground (
      arith,
      e b_end,
      e x_end,
      count_free_below 1 (b_end + 1) hi b_end l c.3,
      count_free_below 1 (x_end + 1) hi x_end m d.3,
    ) in
    let ends : x_end ≡ b_end = omega arith in
    let tails : l ≡ m =
      Chain-unique (b_end + 1) hi l m c.3 (rw ends at d.3) (λ p. ground (arith, e p)) in
    ground arith
