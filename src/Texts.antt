-- ===== src/Texts.antt =====
-- Prefixes and parts of a text, as `std::string::find`, `substr` and `erase` take them.
use os_lab.Base.{
  ℕ, zero, suc, Bool, true, false, Option, none, some, [], ◌∷◌, Str, ◌==◌, if◌then◌else◌,
}

-- What is behind a prefix.
unfoldable pub strip : Str → Str → Option Str
strip [] s = some s
strip (p ∷ ps) [] = none
strip (p ∷ ps) (c ∷ s) = if p == c then strip ps s else none

unfoldable pub take : ℕ → Str → Str
take zero s = []
take (suc n) [] = []
take (suc n) (c ∷ s) = c ∷ take n s

unfoldable pub drop : ℕ → Str → Str
drop zero s = s
drop (suc n) [] = []
drop (suc n) (c ∷ s) = drop n s

-- `std::string::empty`
abbrev pub is_empty : Str → Bool
is_empty [] = true
is_empty (c ∷ s) = false
