-- ===== src/Pages/Bitmap.antt =====
-- The page bitmap: what a write changes, and what `std::count` of its free pages amounts to.
use os_lab.Base.{
  ℕ, zero, suc, ◌+◌, ◌≤◌, ◌<◌, ◌≡◌, refl, ap, Bool, true, false, List, [], ◌∷◌, arith, length, set,
  replicate, length-set, ◌==◌, bit,
}
use os_lab.Pages.{FreeBlock, mark_run, count_false}
use os_lab.Pages.Counts.{in_run, count_free, count_page, total_free}

-- 1 if the page is in use, 0 if it is free or there is no such page.
unfoldable pub marked : List Bool → ℕ → ℕ
marked [] p = 0
marked (b ∷ bm) zero = bit b
marked (b ∷ bm) (suc p) = marked bm p

pub marked_beyond : (bm : List Bool) (p : ℕ) → length bm ≤ p → marked bm p ≡ 0
unfolding marked
marked_beyond [] p h = refl
marked_beyond (b ∷ bm) zero h = absurd (omega arith)
marked_beyond (b ∷ bm) (suc p) h = marked_beyond bm p (omega arith)

pub marked-replicate : (n p : ℕ) → marked (replicate n false) p ≡ 0
unfolding marked
marked-replicate zero p = refl
marked-replicate (suc n) zero = refl
marked-replicate (suc n) (suc p) = marked-replicate n p

pub marked-set_self :
    (bm : List Bool) (i : ℕ) (v : Bool) → i < length bm → marked (set bm i v) i ≡ bit v
unfolding marked
marked-set_self [] i v h = elim h [ ]
marked-set_self (b ∷ bm) zero v h = refl
marked-set_self (b ∷ bm) (suc i) v h = marked-set_self bm i v (omega arith)

pub marked-set_ne :
    (bm : List Bool) (i p : ℕ) (v : Bool) → ¬ (i ≡ p) → marked (set bm i v) p ≡ marked bm p
unfolding marked
marked-set_ne [] i p v h = refl
marked-set_ne (b ∷ bm) zero zero v h = absurd (h refl)
marked-set_ne (b ∷ bm) zero (suc p) v h = refl
marked-set_ne (b ∷ bm) (suc i) zero v h = refl
marked-set_ne (b ∷ bm) (suc i) (suc p) v h = marked-set_ne bm i p v (λ e. h (ap suc e))

pub length-mark_run :
    (n start : ℕ) (v : Bool) (bm : List Bool) → length (mark_run n start v bm) ≡ length bm
unfolding mark_run
length-mark_run zero start v bm = refl
length-mark_run (suc n) start v bm =
    omega (arith, length-mark_run n (start + 1) v (set bm start v), length-set bm start v)

pub marked-mark_run_out :
    (p n start : ℕ) (v : Bool) (bm : List Bool)
    → in_run p start n ≡ 0
    → marked (mark_run n start v bm) p ≡ marked bm p
unfolding mark_run
marked-mark_run_out p zero start v bm h = refl
marked-mark_run_out p (suc n) start v bm h =
    ground
      (arith, marked-mark_run_out p n (start + 1) v (set bm start v), marked-set_ne bm start p v)

pub marked-mark_run_in :
    (p n start : ℕ) (v : Bool) (bm : List Bool)
    → in_run p start n ≡ 1
    → start + n ≤ length bm
    → marked (mark_run n start v bm) p ≡ bit v
unfolding mark_run
marked-mark_run_in p zero start v bm h k = ground arith
marked-mark_run_in p (suc n) start v bm h k = ground (
  arith,
  marked-mark_run_in p n (start + 1) v (set bm start v),
  marked-mark_run_out p n (start + 1) v (set bm start v),
  marked-set_self bm start v,
  length-set bm start v,
)

-- To mark a run of free pages adds the run.
pub marked-mark_run :
    (p n start : ℕ) (bm : List Bool)
    → start + n ≤ length bm
    → marked bm p + in_run p start n ≤ 1
    → marked (mark_run n start true bm) p ≡ marked bm p + in_run p start n
marked-mark_run p n start bm k h =
    ground (arith, marked-mark_run_in p n start true bm, marked-mark_run_out p n start true bm)

-- To free a used page takes it away.
pub marked-set-false :
    (p i : ℕ) (bm : List Bool)
    → marked bm i ≡ 1
    → marked (set bm i false) p + bit (p == i) ≡ marked bm p
marked-set-false p i bm h =
    ground (arith, marked_beyond bm i, marked-set_self bm i false, marked-set_ne bm i p false)

-- The sum of `f` over the pages below `n`.
unfoldable pub sum_below : ℕ → (ℕ → ℕ) → ℕ
sum_below zero f = 0
sum_below (suc n) f = f 0 + sum_below n (λ p. f (suc p))

pub sum_below-add :
    (n : ℕ) (f g h : ℕ → ℕ)
    → ((p : ℕ) → f p + g p ≡ h p)
    → sum_below n f + sum_below n g ≡ sum_below n h
unfolding sum_below
sum_below-add zero f g h e = refl
sum_below-add (suc n) f g h e = omega (
  arith,
  e 0,
  sum_below-add n (λ p. f (suc p)) (λ p. g (suc p)) (λ p. h (suc p)) (λ p. e (suc p)),
)

pub sum_below-zero : (n : ℕ) (f : ℕ → ℕ) → ((p : ℕ) → f p ≡ 0) → sum_below n f ≡ 0
unfolding sum_below
sum_below-zero zero f e = refl
sum_below-zero (suc n) f e = omega (arith, e 0, sum_below-zero n (λ p. f (suc p)) (λ p. e (suc p)))

pub sum_below-ext :
    (n : ℕ) (f g : ℕ → ℕ) → ((p : ℕ) → p < n → f p ≡ g p) → sum_below n f ≡ sum_below n g
unfolding sum_below
sum_below-ext zero f g e = refl
sum_below-ext (suc n) f g e = omega (
  arith,
  e 0 (omega arith),
  sum_below-ext n (λ p. f (suc p)) (λ p. g (suc p)) (λ p h. e (suc p) (omega arith)),
)

pub sum_below-in_run : (n s k : ℕ) → s + k ≤ n → sum_below n (λ p. in_run p s k) ≡ k
unfolding sum_below
sum_below-in_run zero s k h = omega arith
sum_below-in_run (suc n) zero zero h =
    sum_below-zero (suc n) (λ p. in_run p 0 0) (λ p. ground arith)
sum_below-in_run (suc n) zero (suc k) h =
    let first : in_run 0 0 (suc k) ≡ 1 = ground arith in
    omega (
      arith,
      sum_below-ext n (λ p. in_run (suc p) 0 (suc k)) (λ p. in_run p 0 k) (λ p _. ground arith),
      sum_below-in_run n 0 k (omega arith),
    )
sum_below-in_run (suc n) (suc s) k h =
    let first : in_run 0 (suc s) k ≡ 0 = ground arith in
    omega (
      arith,
      sum_below-ext n (λ p. in_run (suc p) (suc s) k) (λ p. in_run p s k) (λ p _. ground arith),
      sum_below-in_run n s k (omega arith),
    )

-- All blocks lie within the first `n` pages.
abbrev pub Within : ℕ → List FreeBlock → Type 0
Within n [] = Unit
Within n (b ∷ l) = (b.start_page + b.num_pages ≤ n) × Within n l

pub sum_below-count_free :
    (n : ℕ) (l : List FreeBlock) → Within n l → sum_below n (λ p. count_free p l) ≡ total_free l
unfolding count_free total_free
sum_below-count_free n [] w = sum_below-zero n (λ p. 0) (λ p. refl)
sum_below-count_free n (b ∷ l) w = omega (
  arith,
  sum_below-add n (λ p. in_run p b.start_page b.num_pages) (λ p. count_free p l)
      (λ p. in_run p b.start_page b.num_pages + count_free p l) (λ p. refl),
  sum_below-in_run n b.start_page b.num_pages w.0,
  sum_below-count_free n l w.1,
)

sum_below-eq : (n q : ℕ) → q < n → sum_below n (λ p. bit (p == q)) ≡ 1
unfolding sum_below
sum_below-eq zero q h = elim h [ ]
sum_below-eq (suc n) zero h =
    omega (arith, sum_below-zero n (λ p. bit (suc p == 0)) (λ p. ground arith))
sum_below-eq (suc n) (suc q) h =
    let first : bit (0 == suc q) ≡ 0 = ground arith in
    omega (
      arith,
      sum_below-ext n (λ p. bit (suc p == suc q)) (λ p. bit (p == q)) (λ p _. ground arith),
      sum_below-eq n q (omega arith),
    )

-- The pages of a list are as many as it is long, if they are pages at all.
pub sum_below-count_page :
    (n : ℕ) (xs : List ℕ)
    → ((p : ℕ) → n ≤ p → count_page p xs ≡ 0)
    → sum_below n (λ p. count_page p xs) ≡ length xs
unfolding count_page
sum_below-count_page n [] w = sum_below-zero n (λ p. 0) (λ p. refl)
sum_below-count_page n (q ∷ xs) w = omega (
  arith,
  sum_below-add n (λ p. bit (p == q)) (λ p. count_page p xs) (λ p. bit (p == q) + count_page p xs)
      (λ p. refl),
  sum_below-eq n q (ground (arith, w q)),
  sum_below-count_page n xs (λ p h. omega (arith, w p h)),
)

-- The pages that `std::count` finds free are those that are not marked.
pub count_false-marked :
    (bm : List Bool) → count_false bm + sum_below (length bm) (marked bm) ≡ length bm
unfolding count_false marked sum_below
count_false-marked [] = refl
count_false-marked (b ∷ bm) = ground (arith, count_false-marked bm)

-- A bitmap is determined by its length and its marks.
pub bitmap_unique :
    (bm bm' : List Bool)
    → length bm ≡ length bm'
    → ((p : ℕ) → marked bm p ≡ marked bm' p)
    → bm ≡ bm'
unfolding marked
bitmap_unique [] [] h e = refl
bitmap_unique [] (c ∷ bm') h e = absurd (omega arith)
bitmap_unique (b ∷ bm) [] h e = absurd (omega arith)
bitmap_unique (b ∷ bm) (c ∷ bm') h e =
    ground (arith, e 0, bitmap_unique bm bm' (omega arith) (λ p. e (suc p)))
