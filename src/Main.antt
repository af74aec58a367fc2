-- ===== src/Main.antt =====
-- The command line of main.cpp: the port on which the server listens. Main/Program has the rest,
-- and Main/Endings what it does with descriptors.
pub mod Program
pub mod Endings
mod Tests
use os_lab.Base.{
  ℕ, zero, suc, ◌+◌, ◌^◌, ◌<◌, ◌≤◌, ◌≡◌, ◌≢◌, refl, ap, ◌∙◌, Bool, true, false, ◌||◌, ◌&&◌, Option,
  none, some, List, [], ◌∷◌, Str, ltb, leb, ◌==◌, if◌then◌else◌, arith,
}
use os_lab.Decimal.{to_string}
use os_lab.TraceProcessor.{skip_spaces, read_digits}
use os_lab.TraceProcessor.Numbers.{
  AreDigits, digits-AreDigits, read_digits-digits, to_string_ne, skip_spaces-AreDigits,
}

pub data ℤ : Type 0 where
  pos : ℕ → ℤ
  negsuc : ℕ → ℤ

-- The values of `int`; for others C++ does not say what `std::atoi` returns.
abbrev pub int_of : ℕ → Option ℤ
int_of n = if ltb n (2 ^ 31) then some (pos n) else none

abbrev pub negative_int_of : ℕ → Option ℤ
negative_int_of zero = some (pos 0)
negative_int_of (suc n) = if ltb n (2 ^ 31) then some (negsuc n) else none

unfoldable pub read_int : Str → Option ℤ
unfolding read_digits
read_int [] = some (pos 0)
read_int (c ∷ s) =
    if c == 45
    then negative_int_of (read_digits 0 s)
    else if c == 43
    then int_of (read_digits 0 s)
    else int_of (read_digits 0 (c ∷ s))

unfoldable pub atoi : Str → Option ℤ
unfolding skip_spaces read_int
atoi s = read_int (skip_spaces s)

-- What `main` does with its arguments: the server starts on a port, or the program ends with code
-- 1.
pub data Port : Type 0 where
  starts : ℕ → Port
  refused : Port
  unknown : Port

abbrev pub check_port : Option ℤ → Port
check_port none = unknown
check_port (some (negsuc n)) = refused
check_port (some (pos n)) = if n == 0 || ltb 65535 n then refused else starts n

unfoldable pub port_of : List Str → Port
unfolding atoi
port_of [] = starts 8080
port_of (arg ∷ []) = check_port (atoi arg)
port_of (arg ∷ more ∷ rest) = refused

read_int-AreDigits : (s : Str) → AreDigits s → s ≢ [] → read_int s ≡ int_of (read_digits 0 s)
unfolding read_int
read_int-AreDigits [] h ne = absurd (ne refl)
read_int-AreDigits (c ∷ s) h ne = ground arith

-- A number below 2^31, printed in decimal as the only argument, is the port of the server if it is
-- from 1 to 65535, and else it is refused.
pub port_of-to_string :
    (n : ℕ)
    → n < 2 ^ 31
    → port_of (to_string n ∷ []) ≡ (if leb 1 n && leb n 65535 then starts n else refused)
unfolding port_of atoi to_string
port_of-to_string n h =
    let s = to_string n in
    let digits = digits-AreDigits (suc n) n in
    let value : read_digits 0 s ≡ n = read_digits-digits (suc n) n (omega arith) in
    let in_int : int_of n ≡ some (pos n) = ground arith in
    ap (λ t. check_port (read_int t)) (skip_spaces-AreDigits s digits)
    ∙ ap check_port (read_int-AreDigits s digits (to_string_ne n) ∙ ap int_of value ∙ in_int)
    ∙ ground arith
