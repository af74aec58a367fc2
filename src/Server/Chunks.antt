-- ===== src/Server/Chunks.antt =====
-- How the messages in a client's bytes are found, for `handle_client_data` of server.cpp, when the
-- bytes come in chunks; and that the reference `receive` does not see the chunks.
use os_lab.Base.{
  ℕ, zero, suc, ◌+◌, ◌≤◌, ◌≡◌, refl, sym, ap, ◌∙◌, inl, inr, some, none, Option, List, [], ◌∷◌,
  ◌++◌, Str, arith, length, length-append, Option-cases, some-injective,
}
use os_lab.PagedCache.{PagedCache}
use os_lab.Protocol.{parse_message}
use os_lab.Texts.{strip}
use os_lab.Server.{process_command}
use os_lab.Server.Receive.{ending, take_message, c_string, Handled, answer_first, messages, receive}

strip-append : (p s t r : Str) → strip p s ≡ some r → strip p (s ++ t) ≡ some (r ++ t)
unfolding strip
strip-append [] s t r h = ground arith
strip-append (p ∷ ps) [] t r h = ground arith
strip-append (p ∷ ps) (c ∷ s) t r h = ground (arith, strip-append ps s t r)

strip-append_none : (p s t : Str) → strip p s ≡ none → length p ≤ length s → strip p (s ++ t) ≡ none
unfolding strip
strip-append_none [] s t h n = ground arith
strip-append_none (p ∷ ps) [] t h n = ground arith
strip-append_none (p ∷ ps) (c ∷ s) t h n = ground (arith, strip-append_none ps s t)

length-strip : (p s r : Str) → strip p s ≡ some r → length s ≡ length p + length r
unfolding strip
length-strip [] s r h = ground arith
length-strip (p ∷ ps) [] r h = ground arith
length-strip (p ∷ ps) (c ∷ s) r h = ground (arith, length-strip ps s r)

pub c_string-append : (s t : Str) → c_string s ≡ s → c_string (s ++ t) ≡ s ++ c_string t
unfolding c_string
c_string-append [] t h = refl
c_string-append (c ∷ s) t h = ground (arith, c_string-append s t)

some_pair :
    (m m' r r' : Str)
    → ◌≡◌ {A = Option (Str × Str)} (some (m, r)) (some (m', r'))
    → (m ≡ m') × (r ≡ r')
some_pair m m' r r' h =
    let q = some-injective (m, r) (m', r') h in (ap (λ x. x.0) q, ap (λ x. x.1) q)

module _ (c : ℕ) (s : Str) where
  take_now : (r : Str) → strip ending (c ∷ s) ≡ some r → take_message (c ∷ s) ≡ some (ending, r)
  unfolding take_message
  take_now r e = rw (take_message, e)

  take_later :
      (m r : Str)
      → strip ending (c ∷ s) ≡ none
      → take_message s ≡ some (m, r)
      → take_message (c ∷ s) ≡ some (c ∷ m, r)
  unfolding take_message
  take_later m r e h = rw (take_message, e, h)

  take_none : strip ending (c ∷ s) ≡ none → take_message s ≡ none → take_message (c ∷ s) ≡ none
  unfolding take_message
  take_none e h = rw (take_message, e, h)

-- What the first message takes of a buffer.
pub length-take_message :
    (s message rest : Str) → take_message s ≡ some (message, rest) → 4 + length rest ≤ length s
unfolding take_message
length-take_message [] message rest h = absurd (ground arith)
length-take_message (c ∷ s) message rest h = elim (Option-cases (strip ending (c ∷ s))) [
  | inr (r, e) ↦
      let (_, q) = some_pair ending message r rest (sym (take_now c s r e) ∙ h) in
      omega (arith, length-strip ending (c ∷ s) r e, ap length q)
  | inl e ↦ elim (Option-cases (take_message s)) [
    | inl n ↦ absurd (ground (arith, sym (take_none c s e n) ∙ h))
    | inr ((m, r), l) ↦
        let (_, q) = some_pair (c ∷ m) message r rest (sym (take_later c s m r e l) ∙ h) in
        omega (arith, length-take_message s m r l, ap length q)
  ]
]

abbrev append_rest : Str → Option (Str × Str) → Option (Str × Str)
append_rest t none = none
append_rest t (some (m, r)) = some (m, r ++ t)

-- More bytes at the end do not change the first message.
pub take_message-append :
    (s t message rest : Str)
    → take_message s ≡ some (message, rest)
    → take_message (s ++ t) ≡ some (message, rest ++ t)
unfolding take_message
take_message-append [] t message rest h = absurd (ground arith)
take_message-append (c ∷ s) t message rest h = elim (Option-cases (strip ending (c ∷ s))) [
  | inr (r, e) ↦
      take_now c (s ++ t) (r ++ t) (strip-append ending (c ∷ s) t r e)
      ∙ ap (λ o. append_rest t o) (sym (take_now c s r e) ∙ h)
  | inl e ↦ elim (Option-cases (take_message s)) [
    | inl n ↦ absurd (ground (arith, sym (take_none c s e n) ∙ h))
    | inr ((m, r), l) ↦
        take_later c (s ++ t) m (r ++ t)
          (strip-append_none ending (c ∷ s) t e (omega (arith, length-take_message s m r l)))
          (take_message-append s t m r l)
        ∙ ap (λ o. append_rest t o) (sym (take_later c s m r e l) ∙ h)
  ]
]

append_assoc : (xs ys zs : Str) → xs ++ (ys ++ zs) ≡ (xs ++ ys) ++ zs
append_assoc [] ys zs = refl
append_assoc (x ∷ xs) ys zs = ap (λ s. x ∷ s) (append_assoc xs ys zs)

module _ (client_id : Str) (now : ℕ) where
  abbrev loop : ℕ → Str → PagedCache → Handled
  loop = messages client_id now

  pub loop-none :
      (fuel : ℕ) (b : Str) (c : PagedCache)
      → take_message b ≡ none
      → loop fuel b c ≡ record { answers = []; buffer = b; cache = c }
  unfolding messages
  loop-none zero b c h = refl
  loop-none (suc fuel) b c h = rw (messages, h)

  pub loop-some :
      (fuel : ℕ) (b m r : Str) (c : PagedCache)
      → take_message b ≡ some (m, r)
      → loop (suc fuel) b c ≡ (
          let (answer, c') = process_command (parse_message m) client_id now c in
          answer_first answer (loop fuel r c'))
  unfolding messages
  loop-some fuel b m r c h = rw (messages, h)

  pub no_message : (b : Str) → length b ≤ 0 → take_message b ≡ none
  unfolding take_message
  no_message [] h = refl
  no_message (x ∷ b) h = absurd (omega arith)

  -- Fuel for each byte is enough.
  loop_fuel :
      (f g : ℕ) (b : Str) (c : PagedCache) → length b ≤ f → length b ≤ g → loop f b c ≡ loop g b c
  loop_fuel zero g b c hf hg =
      loop-none zero b c (no_message b hf) ∙ sym (loop-none g b c (no_message b hf))
  loop_fuel (suc f) zero b c hf hg =
      loop-none (suc f) b c (no_message b hg) ∙ sym (loop-none zero b c (no_message b hg))
  loop_fuel (suc f) (suc g) b c hf hg = elim (Option-cases (take_message b)) [
    | inl n ↦ loop-none (suc f) b c n ∙ sym (loop-none (suc g) b c n)
    | inr ((m, r), h) ↦
        let short = length-take_message b m r h in
        let (answer, c') = process_command (parse_message m) client_id now c in
        loop-some f b m r c h
        ∙ ap (answer_first answer)
            (loop_fuel f g r c' (omega (arith, short)) (omega (arith, short)))
        ∙ sym (loop-some g b m r c h)
  ]

  -- What two stretches of the loop answer together.
  abbrev pub joined : List Str → Handled → Handled
  joined answers h = record h { answers = answers ++ h.answers }

  loop-append_none :
      (f g k : ℕ) (b t : Str) (c : PagedCache)
      → take_message b ≡ none
      → length (b ++ t) ≤ f
      → length ((loop g b c).buffer ++ t) ≤ k
      → loop f (b ++ t) c
        ≡ joined (loop g b c).answers (loop k ((loop g b c).buffer ++ t) (loop g b c).cache)
  loop-append_none f g k b t c n hf hk =
      let left : length ((loop g b c).buffer ++ t) ≡ length (b ++ t) =
        ap (λ h. length (h.buffer ++ t)) (loop-none g b c n) in
      rw (loop-none g b c n) (loop_fuel f k (b ++ t) c hf (omega (arith, hk, left)))

  -- The loop on a buffer with more bytes at its end.
  loop-append :
      (f g k : ℕ) (b t : Str) (c : PagedCache)
      → length (b ++ t) ≤ f
      → length b ≤ g
      → length ((loop g b c).buffer ++ t) ≤ k
      → loop f (b ++ t) c
        ≡ joined (loop g b c).answers (loop k ((loop g b c).buffer ++ t) (loop g b c).cache)
  loop-append zero g k b t c hf hg hk =
      loop-append_none zero g k b t c (no_message b (omega (arith, hf, length-append b t))) hf hk
  loop-append (suc f) zero k b t c hf hg hk =
      loop-append_none (suc f) zero k b t c (no_message b hg) hf hk
  loop-append (suc f) (suc g) k b t c hf hg hk = elim (Option-cases (take_message b)) [
    | inl n ↦ loop-append_none (suc f) (suc g) k b t c n hf hk
    | inr ((m, r), h) ↦
        let short = length-take_message b m r h in
        let (answer, c') = process_command (parse_message m) client_id now c in
        loop-some f (b ++ t) m (r ++ t) c (take_message-append b t m r h)
        ∙ ap (answer_first answer) (
            loop-append f g k r t c'
              (omega (arith, short, hf, length-append r t, length-append b t))
              (omega (arith, short))
              (omega (arith, hk, ap (λ s. length (s.buffer ++ t)) (loop-some g b m r c h))))
        ∙ ap (λ s. joined s.answers (loop k (s.buffer ++ t) s.cache)) (sym (loop-some g b m r c h))
  ]

  abbrev handled_twice : Str → Str → PagedCache → Str → Handled
  handled_twice buffer t c s =
      let h = loop (length (buffer ++ s)) (buffer ++ s) c in
      joined h.answers (loop (length (h.buffer ++ t)) (h.buffer ++ t) h.cache)

  -- A client's bytes in two chunks, the first of them without a zero byte, get the answers, and
  -- leave the buffer and the cache, that they would in one chunk.
  pub receive-append :
      (first second buffer : Str) (c : PagedCache)
      → c_string first ≡ first
      → (let h = receive client_id now first buffer c in
          receive client_id now (first ++ second) buffer c
          ≡ joined h.answers (receive client_id now second h.buffer h.cache))
  unfolding receive
  receive-append first second buffer c clean =
      let t = c_string second in
      let h = loop (length (buffer ++ first)) (buffer ++ first) c in
      ap (λ s. loop (length (buffer ++ s)) (buffer ++ s) c) (c_string-append first second clean)
      ∙ ap (λ s. loop (length s) s c) (append_assoc buffer first t)
      ∙ loop-append (length ((buffer ++ first) ++ t)) (length (buffer ++ first))
          (length (h.buffer ++ t)) (buffer ++ first) t c (omega arith) (omega arith) (omega arith)
      ∙ ap (λ s. handled_twice buffer t c s) (sym clean)
