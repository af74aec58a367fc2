-- ===== src/Pages/Allocate.antt =====
-- What `allocate_pages_linked` does: it succeeds exactly when there are pages enough, wherever they
-- are, and a failure leaves no trace.
use os_lab.Base.{
  ℕ, ◌+◌, ◌-◌, ◌≤◌, ◌<◌, min, ◌≡◌, refl, sym, ap, inl, inr, Bool, true, false, List, [], ◌∷◌, arith,
  length, ltb, ◌==◌, Bool-cases,
}
use os_lab.Pages.{
  FreeBlock, Pages, page_run, mark_run, Allocation, allocate_loop, roll_back, get_free_pages,
  allocate_pages_linked,
}
use os_lab.Pages.Counts.{
  in_run, count_free, count_page, count_page-append, count_page-page_run, allocate_loop-count,
  allocate_loop-length, allocate_loop-pages_allocated,
}
use os_lab.Pages.Bitmap.{marked, length-mark_run, marked-mark_run, Within}
use os_lab.Pages.Order.{Chain-Within, allocate_loop-Chain}
use os_lab.Pages.Sound.{IsValid, get_free_pages-total_free, IsValid-unique}
use os_lab.Pages.Release.{Unmarks, AreMarked, deallocate_pages_linked_lem}

Within-subst : (n m : ℕ) (l : List FreeBlock) → n ≡ m → Within n l → Within m l
Within-subst n m [] e w = tt
Within-subst n m (b ∷ l) e w = (omega arith, Within-subst n m l e w.1)

module _ (num_pages : ℕ) where
  allocate_loop-bitmap :
      (done : ℕ) (bm : List Bool) (l : List FreeBlock)
      → length (allocate_loop num_pages done bm l).bitmap ≡ length bm
  unfolding allocate_loop
  allocate_loop-bitmap done bm [] = refl
  allocate_loop-bitmap done bm (b ∷ l) =
      let n = min b.num_pages (num_pages - done) in
      let bm' = mark_run n b.start_page true bm in
      ground (arith, allocate_loop-bitmap (done + n) bm' l, length-mark_run n b.start_page true bm)

  -- The loop marks the pages that it takes, and no others.
  allocate_loop-marked :
      (q done : ℕ) (bm : List Bool) (l : List FreeBlock)
      → Within (length bm) l
      → marked bm q + count_free q l ≤ 1
      → let a = allocate_loop num_pages done bm l in
        marked a.bitmap q ≡ marked bm q + count_page q a.blocks
  unfolding allocate_loop count_free count_page
  allocate_loop-marked q done bm [] w h = omega arith
  allocate_loop-marked q done bm (b ∷ l) w h =
      let n = min b.num_pages (num_pages - done) in
      let bm' = mark_run n b.start_page true bm in
      let part : in_run q b.start_page n ≤ in_run q b.start_page b.num_pages = ground arith in
      let run : marked bm' q ≡ marked bm q + in_run q b.start_page n =
        marked-mark_run q n b.start_page bm (omega (arith, w.0)) (omega arith) in
      let same : length bm ≡ length bm' = sym (length-mark_run n b.start_page true bm) in
      let rest = allocate_loop num_pages (done + n) bm' l in
      let ih : marked rest.bitmap q ≡ marked bm' q + count_page q rest.blocks =
        allocate_loop-marked q (done + n) bm' l (Within-subst (length bm) (length bm') l same w.1)
          (omega arith) in
      elim (Bool-cases (ltb done num_pages)) [
        | inr t ↦ rw (t, allocate_loop) (omega arith)
        | inl t ↦
            rw (t, allocate_loop)
              (omega (
                arith,
                ih,
                run,
                count_page-append q (page_run n b.start_page) rest.blocks,
                count_page-page_run q n b.start_page,
              ))
      ]

-- The pages that are marked after an allocation of `xs` are those before it, and `xs`.
abbrev pub Marks : List ℕ → Pages → Pages → Type 0
Marks xs p p' = (q : ℕ) → marked p'.page_bitmap q ≡ marked p.page_bitmap q + count_page q xs

abbrev loop : ℕ → Pages → Allocation
loop num_pages p = allocate_loop num_pages 0 p.page_bitmap p.free_list

abbrev after_loop : ℕ → Pages → Pages
after_loop num_pages p = record {
  page_bitmap = (loop num_pages p).bitmap;
  free_list = (loop num_pages p).free;
}

module _ (n num_pages : ℕ) (p : Pages) (v : IsValid n p) where
  loop-Marks : Marks (loop num_pages p).blocks p (after_loop num_pages p)
  loop-Marks q =
      let one : in_run q 0 n ≤ 1 = ground arith in
      allocate_loop-marked num_pages q 0 p.page_bitmap p.free_list
        (Within-subst n (length p.page_bitmap) p.free_list (sym v.size)
          (Chain-Within 1 0 n p.free_list v.order))
        (omega (arith, v.exact q))

  loop-IsValid : IsValid n (after_loop num_pages p)
  loop-IsValid = record {
    size = omega (arith, v.size, allocate_loop-bitmap num_pages 0 p.page_bitmap p.free_list);
    exact = λ q. omega (
      arith,
      v.exact q,
      loop-Marks q,
      allocate_loop-count num_pages q 0 p.page_bitmap p.free_list,
    );
    order = allocate_loop-Chain num_pages 1 0 n 0 p.page_bitmap p.free_list v.order;
  }

  loop-pages_allocated : (loop num_pages p).pages_allocated ≡ min num_pages (get_free_pages p)
  loop-pages_allocated = omega (
    arith,
    allocate_loop-pages_allocated num_pages 0 p.page_bitmap p.free_list,
    get_free_pages-total_free 1 n p v,
  )

roll_back_lem :
    (n : ℕ) (xs : List ℕ) (p : Pages)
    → IsValid n p
    → AreMarked xs p
    → IsValid n (roll_back xs p) × Unmarks xs p (roll_back xs p)
unfolding roll_back count_page
roll_back_lem n [] p v h = (v, λ q. omega arith)
roll_back_lem n (x ∷ xs) p v h = deallocate_pages_linked_lem n (x ∷ xs) p 1 v h

module _ (n num_pages : ℕ) (p : Pages) (v : IsValid n p) where
  -- With pages enough, scattered or not, an allocation returns that many pages that were free,
  -- marks just these, and keeps the invariant.
  pub allocate_pages_linked_enough :
      0 < num_pages
      → num_pages ≤ get_free_pages p
      → let (xs, p') = allocate_pages_linked num_pages p in
        (length xs ≡ num_pages) × IsValid n p' × Marks xs p p'
  unfolding allocate_pages_linked
  allocate_pages_linked_enough h k =
      let all : (loop num_pages p).pages_allocated ≡ num_pages =
        omega (arith, loop-pages_allocated n num_pages p v) in
      let some_pages : (num_pages == 0) ≡ false = ground arith in
      let enough : ((loop num_pages p).pages_allocated == num_pages) ≡ true = ground arith in
      rw (some_pages, enough)
        (
          omega (arith, allocate_loop-length num_pages 0 p.page_bitmap p.free_list),
          loop-IsValid n num_pages p v,
          loop-Marks n num_pages p v,
        )

  -- With too few, it gives back what it took: the state is the one before, to the last block.
  pub allocate_pages_linked_short :
      get_free_pages p < num_pages → allocate_pages_linked num_pages p ≡ ([], p)
  unfolding allocate_pages_linked
  allocate_pages_linked_short h =
      let a = loop num_pages p in
      let some_pages : (num_pages == 0) ≡ false = ground arith in
      let short : (a.pages_allocated == num_pages) ≡ false =
        ground (arith, loop-pages_allocated n num_pages p v) in
      let marks = loop-Marks n num_pages p v in
      let (w, e) =
        roll_back_lem n a.blocks (after_loop num_pages p) (loop-IsValid n num_pages p v)
          (λ q. omega (arith, marks q)) in
      rw (some_pages, short)
        (ap (λ q. ([], q))
          (IsValid-unique n (roll_back a.blocks (after_loop num_pages p)) p w v
            (λ q. omega (arith, marks q, e q))))

-- A request for no pages gets `nullptr`.
pub allocate_pages_linked_zero : (p : Pages) → allocate_pages_linked 0 p ≡ ([], p)
unfolding allocate_pages_linked
allocate_pages_linked_zero p = refl
