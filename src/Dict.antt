-- ===== src/Dict.antt =====
-- `std::unordered_map` as an association list. The program never iterates over one to change or
-- answer anything, so the order of the entries means nothing.
pub mod Sum
use os_lab.Base.{
  ℕ, zero, suc, ◌+◌, ◌-◌, ◌≡◌, refl, ap, ◌≢◌, ite, if_pos, if_neg, Option, none, some, List, [],
  ◌∷◌, arith, length, Option-cases, inl, inr,
}

abbrev pub Dict {ℓ κ} : Type ℓ → Type κ → Type (ℓ ⊔ κ)
Dict K V = List (K × V)

module _ {ℓ} {K V : Type ℓ} (dec : Discrete K) where
  -- `map.find(k)`
  unfoldable pub find : K → Dict K V → Option V
  find k [] = none
  find k ((j, v) ∷ m) = ite (dec k j) (some v) (find k m)

  -- `map.erase(k)`
  unfoldable pub erase : K → Dict K V → Dict K V
  erase k [] = []
  erase k ((j, v) ∷ m) = ite (dec k j) m ((j, v) ∷ erase k m)

  -- `map[k] = v`
  unfoldable pub put : K → V → Dict K V → Dict K V
  put k v [] = (k, v) ∷ []
  put k v ((j, w) ∷ m) = ite (dec k j) ((k, v) ∷ m) ((j, w) ∷ put k v m)

  -- No key is held twice.
  abbrev pub Distinct : Dict K V → Type ℓ
  Distinct [] = Unit
  Distinct ((k, v) ∷ m) = (find k m ≡ none) × Distinct m

  pub find-put :
      (k j : K) (v : V) (m : Dict K V) → find j (put k v m) ≡ ite (dec j k) (some v) (find j m)
  unfolding find put
  find-put k j v [] = refl
  find-put k j v ((i, w) ∷ m) = ground (arith, find-put k j v m)

  pub find-erase_ne : (k j : K) (m : Dict K V) → j ≢ k → find j (erase k m) ≡ find j m
  unfolding find erase
  find-erase_ne k j [] h = refl
  find-erase_ne k j ((i, w) ∷ m) h = ground (arith, find-erase_ne k j m h)

  pub find-erase_self : (k : K) (m : Dict K V) → Distinct m → find k (erase k m) ≡ none
  unfolding find erase
  find-erase_self k [] d = refl
  find-erase_self k ((i, w) ∷ m) d = ground (arith, find-erase_self k m d.1)

  pub find-erase :
      (k j : K) (m : Dict K V) → Distinct m → find j (erase k m) ≡ ite (dec j k) none (find j m)
  find-erase k j m d = ground (arith, find-erase_self k m d, find-erase_ne k j m)

  pub put-Distinct : (k : K) (v : V) (m : Dict K V) → Distinct m → Distinct (put k v m)
  unfolding find put
  put-Distinct k v [] d = (refl, tt)
  put-Distinct k v ((i, w) ∷ m) d = ground (arith, put-Distinct k v m d.1, find-put k i v m)

  pub erase-Distinct : (k : K) (m : Dict K V) → Distinct m → Distinct (erase k m)
  unfolding find erase
  erase-Distinct k [] d = tt
  erase-Distinct k ((i, w) ∷ m) d = ground (arith, erase-Distinct k m d.1, find-erase_ne k i m)

  -- `map.size()` after an erasure, an insertion and an overwriting.
  pub length-erase :
      (k : K) (v : V) (m : Dict K V) → find k m ≡ some v → length (erase k m) + 1 ≡ length m
  unfolding find erase
  length-erase k v [] h = ground arith
  length-erase k v ((i, w) ∷ m) h = ground (arith, length-erase k v m)

  pub length-put_new :
      (k : K) (v : V) (m : Dict K V) → find k m ≡ none → length (put k v m) ≡ length m + 1
  unfolding find put
  length-put_new k v [] h = omega arith
  length-put_new k v ((i, w) ∷ m) h = ground (arith, length-put_new k v m)

  pub length-put_old :
      (k : K) (v w : V) (m : Dict K V) → find k m ≡ some w → length (put k v m) ≡ length m
  unfolding find put
  length-put_old k v w [] h = ground arith
  length-put_old k v w ((i, u) ∷ m) h = ground (arith, length-put_old k v w m)
