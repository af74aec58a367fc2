-- ===== src/Server/Sent.antt =====
-- `send_response` of server.cpp, for whatever `send` does.
use os_lab.Base.{
  ℕ, zero, suc, ◌+◌, ◌≤◌, ◌<◌, ◌≡◌, refl, sym, ap, ◌∙◌, true, false, some, List, [], ◌∷◌, ◌++◌, Str,
  length, ltb, dec_le, arith,
}
use mathlib.Core.List.{append_assoc}
use os_lab.Texts.{take, drop}
use os_lab.Server.Connections.{Sent, took, would_block, failed, Sending, send_loop, send_response}

-- As POSIX has it, `send` takes no more bytes than it is given.
abbrev pub Fits : Str → ℕ → List Sent → Type 0
Fits response total [] = Unit {0}
Fits response total (took n ∷ sends) =
    (total + n ≤ length response) × Fits response (total + n) sends
Fits response total (would_block ∷ sends) = Fits response total sends
Fits response total (failed ∷ sends) = Fits response total sends

-- The calls take all that is left, or one of them fails.
abbrev pub Enough : Str → ℕ → List Sent → Type 0
Enough response total [] = length response ≤ total
Enough response total (took n ∷ sends) = Enough response (total + n) sends
Enough response total (would_block ∷ sends) = Enough response total sends
Enough response total (failed ∷ sends) = Unit {0}

take-drop : (n : ℕ) (s : Str) → take n s ++ drop n s ≡ s
unfolding take drop
take-drop zero s = refl
take-drop (suc n) [] = refl
take-drop (suc n) (c ∷ s) = ap (λ t. c ∷ t) (take-drop n s)

drop-nil : (n : ℕ) → drop n [] ≡ []
unfolding drop
drop-nil zero = refl
drop-nil (suc n) = refl

suc_add : (m n : ℕ) → suc m + n ≡ suc (m + n)
suc_add m n = omega arith

drop-drop : (m n : ℕ) (s : Str) → drop n (drop m s) ≡ drop (m + n) s
unfolding drop
drop-drop zero n s = ap (λ k. drop k s) (omega arith)
drop-drop (suc m) n [] = drop-nil n ∙ sym (drop-nil (suc m + n))
drop-drop (suc m) n (c ∷ s) = drop-drop m n s ∙ sym (ap (λ k. drop k (c ∷ s)) (suc_add m n))

drop_all : (n : ℕ) (s : Str) → length s ≤ n → drop n s ≡ []
unfolding drop
drop_all n [] h = drop-nil n
drop_all zero (c ∷ s) h = absurd (omega arith)
drop_all (suc n) (c ∷ s) h = drop_all n s (omega arith)

-- What has gone out is a beginning of the response, and all of it if the call succeeded.
pub record Delivered (response : Str) (s : Sending) : Type 0 where
  pub rest : Str
  pub prefix : s.out ++ rest ≡ response
  pub whole : s.done ≡ true → rest ≡ []

lt→ltb : (a b : ℕ) → a < b → ltb a b ≡ true
lt→ltb a b h = ground arith

abbrev Result : List Sent → Str → ℕ → Str → Type 0
Result sends response total out =
    (s : Sending) × (send_loop sends response total out ≡ some s) × Delivered response s

module _ (response : Str) (total : ℕ) (out : Str)
    (inv : out ++ drop total response ≡ response) where
  sent_all : (sends : List Sent) → length response ≤ total → Result sends response total out
  unfolding send_loop
  sent_all [] h = (
    record { done = true; out = out; sends = [] },
    ground arith,
    record { rest = drop total response; prefix = inv; whole = λ _. drop_all total response h },
  )
  sent_all (r ∷ sends) h = (
    record { done = true; out = out; sends = r ∷ sends },
    ground arith,
    record { rest = drop total response; prefix = inv; whole = λ _. drop_all total response h },
  )

  sent_failed :
      (sends : List Sent) → total < length response → Result (failed ∷ sends) response total out
  unfolding send_loop
  sent_failed sends h = (
    record { done = false; out = out; sends = sends },
    ground arith,
    record { rest = drop total response; prefix = inv; whole = λ e. cc },
  )

  sent_more :
      (n : ℕ) → (out ++ take n (drop total response)) ++ drop (total + n) response ≡ response
  sent_more n =
      append_assoc out (take n (drop total response)) (drop (total + n) response)
      ∙ ap (λ t. out ++ (take n (drop total response) ++ t)) (sym (drop-drop total n response))
      ∙ ap (λ t. out ++ t) (take-drop n (drop total response))
      ∙ inv

  sent_step :
      (n : ℕ) (sends : List Sent)
      → total < length response
      → Result sends response (total + n) (out ++ take n (drop total response))
      → Result (took n ∷ sends) response total out
  unfolding send_loop
  sent_step n sends h (s, e, d) = (s, rw (send_loop, lt→ltb total (length response) h) e, d)

  sent_again :
      (sends : List Sent)
      → total < length response
      → Result sends response total out
      → Result (would_block ∷ sends) response total out
  unfolding send_loop
  sent_again sends h (s, e, d) = (s, rw (send_loop, lt→ltb total (length response) h) e, d)

  unless_all :
      (sends : List Sent)
      → (total < length response → Result sends response total out)
      → Result sends response total out
  unless_all sends next = elim (dec_le (length response) total) [
    | yes all ↦ sent_all sends all
    | no more ↦ next (omega arith)
  ]

send_loop_lem :
    (sends : List Sent) (response : Str) (total : ℕ) (out : Str)
    → out ++ drop total response ≡ response
    → Fits response total sends
    → Enough response total sends
    → Result sends response total out
send_loop_lem [] response total out inv fits enough = sent_all response total out inv [] enough
send_loop_lem (took n ∷ sends) response total out inv fits enough =
    unless_all response total out inv (took n ∷ sends) λ more.
      sent_step response total out inv n sends more (
        send_loop_lem sends response (total + n) (out ++ take n (drop total response))
          (sent_more response total out inv n) fits.1 enough)
send_loop_lem (would_block ∷ sends) response total out inv fits enough =
    unless_all response total out inv (would_block ∷ sends) λ more.
      sent_again response total out inv sends more
        (send_loop_lem sends response total out inv fits enough)
send_loop_lem (failed ∷ sends) response total out inv fits enough =
    unless_all response total out inv (failed ∷ sends) (sent_failed response total out inv sends)

-- If no call of `send` takes more than it is given, and the calls take the whole response between
-- them or one fails, then `send_response` returns. What went out is a beginning of the response,
-- and if it returns `true`, the whole response.
pub send_response_lem :
    (sends : List Sent) (response : Str)
    → Fits response 0 sends
    → Enough response 0 sends
    → (s : Sending) × (send_response sends response ≡ some s) × Delivered response s
unfolding send_response drop
send_response_lem sends response fits enough = send_loop_lem sends response 0 [] refl fits enough
