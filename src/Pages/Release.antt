-- ===== src/Pages/Release.antt =====
-- What `deallocate_pages_linked` does: it unmarks the pages and puts them back on the free list.
use os_lab.Base.{ℕ, ◌+◌, ◌≤◌, ◌≡◌, false, List, [], ◌∷◌, arith, set, length-set, ◌==◌, bit}
use os_lab.Pages.{Pages, add_to_free_list, release_pages, deallocate_pages_linked}
use os_lab.Pages.Counts.{
  in_run, count_free, count_page, count_free-add_to_free_list, count_free-coalesce_free_blocks,
}
use os_lab.Pages.Bitmap.{marked, marked-set-false}
use os_lab.Pages.Order.{Chain-weaken, add_to_free_list-Chain, coalesce_free_blocks-Chain}
use os_lab.Pages.Sound.{IsSound, IsValid}

-- The pages that are marked after a release of `xs` and those of `xs` are the ones before it.
abbrev pub Unmarks : List ℕ → Pages → Pages → Type 0
Unmarks xs p p' = (q : ℕ) → marked p'.page_bitmap q + count_page q xs ≡ marked p.page_bitmap q

-- All pages of the list are marked, and none is there twice.
abbrev pub AreMarked : List ℕ → Pages → Type 0
AreMarked xs p = (q : ℕ) → count_page q xs ≤ marked p.page_bitmap q

abbrev release_page : ℕ → Pages → Pages
release_page page p = record p {
  page_bitmap = set p.page_bitmap page false;
  free_list = add_to_free_list page 1 p.free_list;
}

release_page_lem :
    (n page : ℕ) (p : Pages)
    → IsSound 0 n p
    → marked p.page_bitmap page ≡ 1
    → IsSound 0 n (release_page page p)
release_page_lem n page p v h =
    let there : in_run page 0 n ≡ 1 = ground (arith, v.exact page) in
    let free : count_free page p.free_list ≡ 0 = omega (arith, v.exact page) in
    record {
      size = omega (arith, v.size, length-set p.page_bitmap page false);
      exact = λ q.
          let one : in_run q page 1 ≡ bit (q == page) = ground arith in
          omega (
            arith,
            v.exact q,
            count_free-add_to_free_list q page 1 p.free_list,
            marked-set-false q page p.page_bitmap h,
          );
      order =
          add_to_free_list-Chain 0 n page 1 p.free_list (omega arith) (omega arith) (ground arith)
            (λ q.
              let same : in_run q page 1 ≡ bit (q == page) = ground arith in
              ground (arith, v.exact q, marked-set-false q page p.page_bitmap h))
            v.order;
    }

pub release_pages_lem :
    (n : ℕ) (xs : List ℕ) (p : Pages)
    → IsSound 0 n p
    → AreMarked xs p
    → IsSound 0 n (release_pages xs p) × Unmarks xs p (release_pages xs p)
unfolding release_pages count_page
release_pages_lem n [] p v h = (v, λ q. omega arith)
release_pages_lem n (page ∷ xs) p v h =
    let self : bit (page == page) ≡ 1 = ground arith in
    let there : in_run page 0 n ≤ 1 = ground arith in
    let used : marked p.page_bitmap page ≡ 1 = omega (arith, h page, v.exact page) in
    let one = λ (q : ℕ). marked-set-false q page p.page_bitmap used in
    let (w, e) =
      release_pages_lem n xs (release_page page p) (release_page_lem n page p v used)
        (λ q. omega (arith, h q, one q)) in
    (w, λ q. omega (arith, e q, one q))

-- To release marked pages keeps the invariant and unmarks just these.
pub deallocate_pages_linked_lem :
    (n : ℕ) (xs : List ℕ) (p : Pages) (gap : ℕ)
    → IsSound gap n p
    → AreMarked xs p
    → IsValid n (deallocate_pages_linked xs p) × Unmarks xs p (deallocate_pages_linked xs p)
unfolding deallocate_pages_linked
deallocate_pages_linked_lem n xs p gap v h =
    let weak : IsSound 0 n p = record {
      size = v.size;
      exact = v.exact;
      order = Chain-weaken gap 0 n p.free_list v.order;
    } in
    let (w, e) = release_pages_lem n xs p weak h in
    let l = (release_pages xs p).free_list in
    (
      record {
        size = w.size;
        exact = λ q. omega (arith, w.exact q, count_free-coalesce_free_blocks q l);
        order = coalesce_free_blocks-Chain 0 n l w.order;
      },
      e,
    )
