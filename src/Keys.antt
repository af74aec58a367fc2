-- ===== src/Keys.antt =====
-- Keys in a list, such as an order of use, and in a dictionary.
use os_lab.Base.{
  ℕ, ◌+◌, ◌-◌, ◌≤◌, ◌≡◌, none, some, List, [], ◌∷◌, ◌++◌, Str, Str-discrete, ite, arith,
}
use os_lab.Dict.{Dict, find, erase, put, Distinct, find-erase, find-put}

-- `lru_order.erase(std::find(…))`, if the key is there.
unfoldable pub remove_key : Str → List Str → List Str
remove_key key [] = []
remove_key key (k ∷ order) = ite (Str-discrete key k) order (k ∷ remove_key key order)

-- How often a key stands in the order of use, and whether it is in the map.
unfoldable pub count_key : Str → List Str → ℕ
count_key key [] = 0
count_key key (k ∷ order) = ite (Str-discrete key k) 1 0 + count_key key order

unfoldable pub present : {V : Type 0} → Str → Dict Str V → ℕ
present key m = elim (find Str-discrete key m) [ none ↦ 0 | some _ ↦ 1 ]

pub count_key-remove_key :
    (k key : Str) (order : List Str)
    → count_key k (remove_key key order) ≡ count_key k order - ite (Str-discrete k key) 1 0
unfolding count_key remove_key
count_key-remove_key k key [] = omega arith
count_key-remove_key k key (j ∷ order) = ground (arith, count_key-remove_key k key order)

pub count_key-append :
    (k : Str) (xs ys : List Str) → count_key k (xs ++ ys) ≡ count_key k xs + count_key k ys
unfolding count_key
count_key-append k [] ys = omega arith
count_key-append k (x ∷ xs) ys = omega (arith, count_key-append k xs ys)

module _ {V : Type 0} where
  pub present-put :
      (k key : Str) (e : V) (m : Dict Str V)
      → present k (put Str-discrete key e m) ≡ ite (Str-discrete k key) 1 (present k m)
  unfolding present
  present-put k key e m = ground (arith, find-put Str-discrete key k e m)

  pub present-erase :
      (k key : Str) (m : Dict Str V)
      → Distinct Str-discrete m
      → present k (erase Str-discrete key m) ≡ ite (Str-discrete k key) 0 (present k m)
  unfolding present
  present-erase k key m d = ground (arith, find-erase Str-discrete key k m d)

  pub present-le-one : (k : Str) (m : Dict Str V) → present k m ≤ 1
  unfolding present
  present-le-one k m = ground arith

  pub present-found :
      (key : Str) (m : Dict Str V) (e : V) → find Str-discrete key m ≡ some e → present key m ≡ 1
  unfolding present
  present-found key m e h = rw (h, present)
