-- ===== src/CacheBenchmark/Sample.antt =====
-- What the sampling loop of cache_benchmark.cpp leave in their caches.
use os_lab.Base.{
  ℕ, zero, suc, ◌+◌, min, ◌≡◌, ◌≢◌, refl, sym, ap, subst, ◌∙◌, Bool, true, false, Option, none,
  some, [], ◌∷◌, Str, length, arith,
}
use os_lab.Protocol.{bytes, get_lines}
use os_lab.TraceProcessor.{parse_line, Stream, has_next, split_line, line_read, entry_of}
use os_lab.TraceProcessor.Lines.{lines_of, get_lines-split_line, parse_line_key}
use os_lab.BenchmarkServer.Trace.{before_empty, at}
use os_lab.BenchmarkCache.{get}
use os_lab.BenchmarkCache.Policies.{BenchmarkCache}
use os_lab.BenchmarkCache.Valid.{IsValid}
use os_lab.BenchmarkCache.Serve.{after, get_lem}
use os_lab.BenchmarkCache.Put.{put_stores}
use os_lab.BenchmarkCache.Counters.{Tally, get-Tally, put-Tally}
use os_lab.CacheBenchmark.{
  put_if_missed, sample_key, after_key, sample_entry, sample_round, sample_loop,
}

-- A valid cache of a capacity that has answered `n` calls of `get`.
pub record IsSampled (n capacity : ℕ) (c : BenchmarkCache) : Type 0 where
  pub valid : IsValid c
  pub tally : Tally n c
  pub bound : c.max_capacity ≡ capacity

-- The loop returns, with such a cache.
abbrev pub Returns : ℕ → ℕ → Option BenchmarkCache → Type 0
Returns n capacity r = (c : BenchmarkCache) × (r ≡ some c) × IsSampled n capacity c

pub Returns-count :
    {n m capacity : ℕ} {r : Option BenchmarkCache}
    → n ≡ m
    → Returns n capacity r
    → Returns m capacity r
Returns-count {n} {m} {capacity} {r} e h = subst (λ k. Returns k capacity r) e h

module _ (now later : ℕ → ℕ) (capacity : ℕ) where
  put_if_missed-Returns :
      (n : ℕ) (key : Str) (time : ℕ) (r : Bool × Str × BenchmarkCache)
      → IsSampled n capacity (after r)
      → Returns n capacity (put_if_missed key time r)
  put_if_missed-Returns n key time (true, value, c) h = (c, refl, h)
  put_if_missed-Returns n key time (false, value, c) h =
      let (c', returns, s) = put_stores key (bytes "dummy_value") time c h.valid in
      (
        c',
        rw (returns, put_if_missed),
        record {
          valid = s.valid;
          tally = put-Tally n key (bytes "dummy_value") time c c' true returns h.tally;
          bound = s.capacity ∙ h.bound;
        },
      )

  sample_key-Returns :
      (n left : ℕ) (key : Str) (c : BenchmarkCache)
      → IsSampled n capacity c
      → Returns (n + 1) capacity (sample_key now later left key c)
  unfolding sample_key
  sample_key-Returns n left key c h =
      let s = get_lem key [] (now left) c h.valid in
      put_if_missed-Returns (n + 1) key (later left) (get key [] (now left) c) (record {
        valid = s.valid;
        tally = get-Tally n key [] (now left) c h.tally;
        bound = s.capacity ∙ h.bound;
      })

  sample_entry-Returns :
      (rest : Stream → BenchmarkCache → Option BenchmarkCache) (left n m : ℕ) (key : Str)
      (s : Stream) (c : BenchmarkCache)
      → key ≢ []
      → ((c' : BenchmarkCache) → IsSampled (n + 1) capacity c' → Returns m capacity (rest s c'))
      → IsSampled n capacity c
      → Returns m capacity (sample_entry now later rest left key s c)
  sample_entry-Returns rest left n m [] s c ne more h = absurd (ne refl)
  sample_entry-Returns rest left n m (x ∷ key) s c ne more h =
      let (c₁, one, h₁) = sample_key-Returns n left (x ∷ key) c h in
      let (c', e, h') = more c₁ h₁ in (c', ap (after_key rest s) one ∙ e, h')

  sample_loop-eof :
      (left : ℕ) (s : Stream) (c : BenchmarkCache)
      → s.eof ≡ true
      → sample_loop now later left s c ≡ some c
  unfolding sample_loop
  sample_loop-eof zero s c h = refl
  sample_loop-eof (suc left) s c h = rw (sample_loop, has_next, h)

  module _ (left n : ℕ) (contents rest : Str) (c : BenchmarkCache)
      (later_rounds : (r : Str) (c' : BenchmarkCache)
        → IsSampled (n + 1) capacity c'
        → Returns
            (n + 1 + min left (length (before_empty (get_lines r))))
            capacity
            (sample_loop now later left (at contents r) c')) where
    sample_round-Returns :
        (p : Str × Option Str)
        → IsSampled n capacity c
        → Returns (n + min (suc left) (length (before_empty (lines_of p)))) capacity (
            sample_round now later
              (sample_loop now later left)
              left
              (entry_of (line_read (at contents rest) p))
              c)
    unfolding parse_line
    sample_round-Returns ([], none) h = Returns-count (omega arith) (c, refl, h)
    sample_round-Returns (x ∷ line, none) h =
        let s = record (at contents rest) { rest = []; eof = true } in
        sample_entry-Returns (sample_loop now later left) left n (n + min (suc left) 1)
          (parse_line (x ∷ line)).key s c (parse_line_key (x ∷ line) (λ e. cc))
          (λ c' h'. Returns-count (omega arith) (c', sample_loop-eof left s c' refl, h')) h
    sample_round-Returns ([], some r) h = Returns-count (omega arith) (c, refl, h)
    sample_round-Returns (x ∷ line, some r) h =
        sample_entry-Returns (sample_loop now later left) left n
          (n + min (suc left) (suc (length (before_empty (get_lines r)))))
          (parse_line (x ∷ line)).key (at contents r) c (parse_line_key (x ∷ line) (λ e. cc))
          (λ c' h'. Returns-count (omega arith) (later_rounds r c' h')) h

  pub sample_loop-Returns :
      (left n : ℕ) (contents rest : Str) (c : BenchmarkCache)
      → IsSampled n capacity c
      → Returns
          (n + min left (length (before_empty (get_lines rest))))
          capacity
          (sample_loop now later left (at contents rest) c)
  unfolding sample_loop
  sample_loop-Returns zero n contents rest c h = Returns-count (omega arith) (c, refl, h)
  sample_loop-Returns (suc left) n contents rest c h =
      Returns-count
        (ap (λ l. n + min (suc left) (length (before_empty l))) (sym (get_lines-split_line rest)))
        (sample_round-Returns left n contents rest c
          (λ r c' h'. sample_loop-Returns left (n + 1) contents r c' h') (split_line rest) h)
