-- ===== src/Dict/Sum.antt =====
-- Sums over the values of a dictionary, and a property of all of them.
use os_lab.Base.{ℕ, ◌+◌, ◌≡◌, refl, subst, ite, some-injective, none, some, [], ◌∷◌, arith}
use os_lab.Dict.{Dict, find, erase, put, Distinct}

module _ {ℓ} {K V : Type ℓ} where
  unfoldable pub sum : (V → ℕ) → Dict K V → ℕ
  sum f [] = 0
  sum f ((k, v) ∷ m) = f v + sum f m

  pub sum-add :
      (f g h : V → ℕ) (m : Dict K V) → ((v : V) → f v + g v ≡ h v) → sum f m + sum g m ≡ sum h m
  unfolding sum
  sum-add f g h [] e = refl
  sum-add f g h ((k, v) ∷ m) e = omega (arith, e v, sum-add f g h m e)

  abbrev pub All {κ} : (V → Type κ) → Dict K V → Type κ
  All P [] = Unit
  All P ((k, v) ∷ m) = P v × All P m

module _ {ℓ} {K V : Type ℓ} (dec : Discrete K) where
  pub sum-erase :
      (f : V → ℕ) (k : K) (v : V) (m : Dict K V)
      → find dec k m ≡ some v
      → sum f m ≡ f v + sum f (erase dec k m)
  unfolding find erase sum
  sum-erase f k v [] h = ground arith
  sum-erase f k v ((j, w) ∷ m) h = ground (arith, sum-erase f k v m)

  pub sum-put_new :
      (f : V → ℕ) (k : K) (v : V) (m : Dict K V)
      → find dec k m ≡ none
      → sum f (put dec k v m) ≡ f v + sum f m
  unfolding find put sum
  sum-put_new f k v [] h = refl
  sum-put_new f k v ((j, w) ∷ m) h = ground (arith, sum-put_new f k v m)

  pub sum-put_old :
      (f : V → ℕ) (k : K) (v w : V) (m : Dict K V)
      → find dec k m ≡ some w
      → sum f (put dec k v m) + f w ≡ f v + sum f m
  unfolding find put sum
  sum-put_old f k v w [] h = ground arith
  sum-put_old f k v w ((j, u) ∷ m) h = ground (arith, sum-put_old f k v w m)

  pub All-find {κ} :
      (P : V → Type κ) (k : K) (v : V) (m : Dict K V) → All P m → find dec k m ≡ some v → P v
  unfolding find
  All-find P k v [] a h = cc
  All-find P k v ((j, w) ∷ m) a h =
      elim (dec k j) as (λ d. ite d (some w) (find dec k m) ≡ some v → P v) [
        | yes p ↦ λ e. subst P (some-injective w v e) a.0
        | no p ↦ λ e. All-find P k v m a.1 e
      ]
        h

  pub All-erase {κ} : (P : V → Type κ) (k : K) (m : Dict K V) → All P m → All P (erase dec k m)
  unfolding erase
  All-erase P k [] a = tt
  All-erase P k ((j, w) ∷ m) a = elim (dec k j) as (λ d. All P (ite d m ((j, w) ∷ erase dec k m))) [
    | yes p ↦ a.1
    | no p ↦ (a.0, All-erase P k m a.1)
  ]

  pub All-put {κ} :
      (P : V → Type κ) (k : K) (v : V) (m : Dict K V) → P v → All P m → All P (put dec k v m)
  unfolding put
  All-put P k v [] h a = (h, tt)
  All-put P k v ((j, w) ∷ m) h a =
      elim (dec k j) as (λ d. All P (ite d ((k, v) ∷ m) ((j, w) ∷ put dec k v m))) [
        | yes p ↦ (h, a.1)
        | no p ↦ (a.0, All-put P k v m h a.1)
      ]

  -- A sum over values that are all 0 is 0, if each key that is found has a value of 0.
  pub sum-eq-zero :
      (f : V → ℕ) (m : Dict K V)
      → Distinct dec m
      → ((k : K) (v : V) → find dec k m ≡ some v → f v ≡ 0)
      → sum f m ≡ 0
  unfolding find sum
  sum-eq-zero f [] d h = refl
  sum-eq-zero f ((k, v) ∷ m) d h =
      omega (arith, h k v (ground arith), sum-eq-zero f m d.1 (λ j w e. h j w (ground arith)))
