-- ===== src/Decimal.antt =====
-- Decimal numbers in texts, as `std::to_string` of the standard library writes them.
use os_lab.Base.{
  ℕ, zero, suc, ◌+◌, ◌-◌, ◌*◌, ◌/◌, ◌%◌, ◌<◌, ◌≡◌, refl, ap, sym, ◌∙◌, [], ◌∷◌, ◌++◌, Str, ltb,
  if◌then◌else◌, arith, Bool-cases, inl, inr,
}

-- The fuel is a number above `n`.
unfoldable pub digits : ℕ → ℕ → Str
digits zero n = []
digits (suc fuel) n =
    let more = digits fuel (n / 10) ++ (48 + n % 10) ∷ [] in
    if ltb n 10 then (48 + n) ∷ [] else more

-- `std::to_string` of an `int` that is not negative.
unfoldable pub to_string : ℕ → Str
unfolding digits
to_string n = digits (suc n) n

-- The number that a text of digits stands for, after what `acc` does.
value : ℕ → Str → ℕ
value acc [] = acc
value acc (c ∷ s) = value (acc * 10 + (c - 48)) s

value-append : (acc : ℕ) (s : Str) (c : ℕ) → value acc (s ++ c ∷ []) ≡ value acc s * 10 + (c - 48)
unfolding value
value-append acc [] c = refl
value-append acc (d ∷ s) c = value-append (acc * 10 + (d - 48)) s c

value-digits : (fuel n : ℕ) → n < fuel → value 0 (digits fuel n) ≡ n
unfolding digits value
value-digits zero n h = absurd (omega arith)
value-digits (suc fuel) n h = elim (Bool-cases (ltb n 10)) [
  | inl small ↦ rw small (omega arith)
  | inr big ↦
      let less : n / 10 < fuel = ground arith in
      rw big (
        value-append 0 (digits fuel (n / 10)) (48 + n % 10)
        ∙ ap (λ t. t * 10 + (48 + n % 10 - 48)) (value-digits fuel (n / 10) less)
        ∙ omega arith)
]

-- Two numbers with the same text are the same.
pub to_string-injective : (m n : ℕ) → to_string m ≡ to_string n → m ≡ n
unfolding to_string
to_string-injective m n h =
    sym (value-digits (suc m) m (omega arith))
    ∙ ap (value 0) h
    ∙ value-digits (suc n) n (omega arith)
