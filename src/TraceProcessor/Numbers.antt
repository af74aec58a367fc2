-- ===== src/TraceProcessor/Numbers.antt =====
-- Decimal numbers that `std::stoull`, as trace_processor.cpp calls it, reads back.
use os_lab.Base.{
  ◌≢◌, ℕ, zero, suc, ◌+◌, ◌-◌, ◌*◌, ◌/◌, ◌%◌, ◌^◌, ◌≤◌, ◌<◌, ◌≡◌, refl, ap, ◌∙◌, true, some, [],
  ◌∷◌, ◌++◌, Str, ltb, arith, Bool-cases, inl, inr,
}
use os_lab.Decimal.{digits, to_string}
use os_lab.TraceProcessor.{is_digit, read_digits, stoull, skip_spaces, signed, unsigned}

-- A text of digits.
abbrev pub AreDigits : Str → Type 0
AreDigits [] = Unit
AreDigits (c ∷ s) = (48 ≤ c) × (c ≤ 57) × AreDigits s

append-AreDigits : (s t : Str) → AreDigits s → AreDigits t → AreDigits (s ++ t)
append-AreDigits [] t h k = k
append-AreDigits (c ∷ s) t h k = (h.0, h.1, append-AreDigits s t h.2 k)

pub digits-AreDigits : (fuel n : ℕ) → AreDigits (digits fuel n)
unfolding digits
digits-AreDigits zero n = tt
digits-AreDigits (suc fuel) n = elim (Bool-cases (ltb n 10)) [
  | inl small ↦ rw (small, digits) (ground arith)
  | inr big ↦
      rw (big, digits)
        (append-AreDigits (digits fuel (n / 10)) ((48 + n % 10) ∷ [])
          (digits-AreDigits fuel (n / 10)) (omega arith))
]

read_digits-append :
    (n : ℕ) (s : Str) (c : ℕ)
    → AreDigits s
    → 48 ≤ c
    → c ≤ 57
    → read_digits n (s ++ c ∷ []) ≡ read_digits n s * 10 + (c - 48)
unfolding read_digits
read_digits-append n [] c h lo hi = ground arith
read_digits-append n (d ∷ s) c h lo hi =
    let digit : is_digit d ≡ true = ground arith in
    rw (digit, read_digits) (read_digits-append (n * 10 + (d - 48)) s c h.2 lo hi)

pub read_digits-digits : (fuel n : ℕ) → n < fuel → read_digits 0 (digits fuel n) ≡ n
unfolding digits read_digits
read_digits-digits zero n h = absurd (omega arith)
read_digits-digits (suc fuel) n h = elim (Bool-cases (ltb n 10)) [
  | inl small ↦ rw (small, digits) (ground arith)
  | inr big ↦
      let less : n / 10 < fuel = ground arith in
      rw (big, digits)
        (read_digits-append 0 (digits fuel (n / 10)) (48 + n % 10) (digits-AreDigits fuel (n / 10))
            (omega arith) (omega arith)
          ∙ ap (λ t. t * 10 + (48 + n % 10 - 48)) (read_digits-digits fuel (n / 10) less)
          ∙ omega arith)
]

stoull-AreDigits :
    (s : Str) → AreDigits s → s ≢ [] → read_digits 0 s < 2 ^ 64 → stoull s ≡ some (read_digits 0 s)
unfolding stoull signed unsigned skip_spaces
stoull-AreDigits [] h ne small = absurd (ne refl)
stoull-AreDigits (c ∷ s) h ne small = ground arith

append_ne : (s : Str) (c : ℕ) → s ++ c ∷ [] ≢ []
append_ne [] c e = cc
append_ne (d ∷ s) c e = cc

pub to_string_ne : (n : ℕ) → to_string n ≢ []
unfolding to_string digits
to_string_ne n = elim (Bool-cases (ltb n 10)) [
  | inl small ↦ rw (small, digits) (λ e. cc)
  | inr big ↦ rw (big, digits) (append_ne (digits n (n / 10)) (48 + n % 10))
]

-- A number that fits into 64 bits, printed in decimal, is read back by `std::stoull`.
pub stoull-to_string : (n : ℕ) → n < 2 ^ 64 → stoull (to_string n) ≡ some n
unfolding to_string
stoull-to_string n h =
    let e = read_digits-digits (suc n) n (omega arith) in
    stoull-AreDigits (to_string n) (digits-AreDigits (suc n) n) (to_string_ne n) (omega (arith, e))
    ∙ ap some e

-- Behind the blanks, a text of digits has no sign.
pub skip_spaces-AreDigits : (s : Str) → AreDigits s → skip_spaces s ≡ s
unfolding skip_spaces
skip_spaces-AreDigits [] h = refl
skip_spaces-AreDigits (c ∷ s) h = ground arith
