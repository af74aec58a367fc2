-- ===== src/CacheBenchmark/Summary.antt =====
-- What `main` of cache_benchmark.cpp reports: its results for the policies that were asked for.
use os_lab.Base.{
  ℕ, min, ◌≡◌, refl, ap, ◌∙◌, Option, none, some, List, [], ◌∷◌, Str, length, arith, Option-cases,
  inl, inr, ◌⊎◌, ◌++◌,
}
use mathlib.Core.List.{append_assoc, append-nil}
use os_lab.Protocol.{get_lines}
use os_lab.TraceProcessor.{initialize}
use os_lab.BenchmarkServer.Trace.{before_empty}
use os_lab.BenchmarkCache.{create}
use os_lab.BenchmarkCache.Policies.{EvictionPolicy, BenchmarkCache}
use os_lab.BenchmarkCache.Run.{create-IsValid}
use os_lab.BenchmarkServer.{System, stopped}
use os_lab.BenchmarkServer.Benchmark.{Benchmark, printed, Course, completed, stuck, thrown}
use os_lab.CacheBenchmark.{
  Options, default_options, summarize, after_arguments, Parsed, parsed, helped, refused, uncaught,
  parse_arguments, policies_to_test, result_of, sample_policy, run_policies, Outcome, exits, aborts,
  hangs, summary, main,
}
use os_lab.CacheBenchmark.Sample.{IsSampled, Returns-count, sample_loop-Returns}

-- The rounds for a trace: a line each, up to the first empty one, and 10000 at most.
abbrev pub rounds : Str → ℕ
rounds contents = min 10000 (length (before_empty (get_lines contents)))

-- One result for each policy, in their order, from a cache of the capacity that has answered so
-- many calls of `get`.
abbrev pub AreSampled :
    ℕ → ℕ → List EvictionPolicy → List (EvictionPolicy × BenchmarkCache) → Type 0
AreSampled n capacity [] [] = Unit
AreSampled n capacity (p ∷ policies) [] = ⊥
AreSampled n capacity [] (result ∷ results) = ⊥
AreSampled n capacity (p ∷ policies) ((q, c) ∷ results) =
    (q ≡ p) × IsSampled n capacity c × AreSampled n capacity policies results

-- The end of the loop over the policies: trouble, or a summary.
abbrev pub concluded : Option Outcome → List (EvictionPolicy × BenchmarkCache) → Outcome
concluded none results = summary results
concluded (some ending) results = ending

Course-cases :
    {capacity : ℕ} {p : EvictionPolicy} {file : Option Str} (c : Course capacity p file)
    → (c ≡ stuck)
      ⊎ ((c ≡ thrown)
          ⊎ ((s : System) × (ends : Benchmark 4 capacity p file printed s) × (stops : s.main
                ≡ stopped)
              × (c ≡ completed s ends stops)))
Course-cases stuck = inl refl
Course-cases thrown = inr (inl refl)
Course-cases (completed s ends stops) = inr (inr (s, ends, stops, refl))

module _ (trace : Str → Option Str)
    (course : (o : Options) (p : EvictionPolicy) → Course o.capacity p (trace o.trace_source)) where
  -- How the first benchmark ends that does not come back, if there is one.
  unfoldable pub trouble : Options → List EvictionPolicy → Option Outcome
  trouble o [] = none
  trouble o (p ∷ policies) = elim (course o p) [
    | stuck ↦ some hangs
    | thrown ↦ some aborts
    | completed s ends stops ↦ trouble o policies
  ]

module _ (now later : EvictionPolicy → ℕ → ℕ) (trace : Str → Option Str)
    (course : (o : Options) (p : EvictionPolicy) → Course o.capacity p (trace o.trace_source)) where
  module _ (o : Options) where
    module _ (contents : Str) (opened : trace o.trace_source ≡ some contents) where
      sample_policy_lem :
          (p : EvictionPolicy)
          → (c : BenchmarkCache) × (sample_policy now later trace o p ≡ some ((p, c) ∷ []))
            × IsSampled (rounds contents) o.capacity c
      unfolding sample_policy initialize create
      sample_policy_lem p =
          let fresh = create o.capacity p in
          let (c, e, h) = Returns-count {m = rounds contents} (omega arith) (
            sample_loop-Returns (now p) (later p) o.capacity 10000 0 contents contents fresh
              (record {
                valid = create-IsValid o.capacity p;
                tally = omega arith;
                bound = refl;
              })) in
          (c, rw (sample_policy, opened) (ap (result_of p) e), h)

      run_policies_lem :
          (policies : List EvictionPolicy) (before : List (EvictionPolicy × BenchmarkCache))
          → (results : List (EvictionPolicy × BenchmarkCache)) × (run_policies now later trace
                course o before policies
              ≡ some (concluded (trouble trace course o policies) (before ++ results)))
            × AreSampled (rounds contents) o.capacity policies results
      unfolding run_policies trouble
      run_policies_lem [] before = ([], rw append-nil refl, tt)
      run_policies_lem (p ∷ policies) before =
          let (c, one, h) = sample_policy_lem p in
          let (results, more, hs) = run_policies_lem policies (before ++ (p, c) ∷ []) in
          (
            (p, c) ∷ results,
            elim (Course-cases (course o p)) [
              | inl e ↦ rw (run_policies, trouble, e) refl
              | inr (inl e) ↦ rw (run_policies, trouble, e) refl
              | inr (inr (s, ends, stops, e)) ↦
                  rw (run_policies, trouble, e, one)
                    (more
                      ∙ ap (λ l. some (concluded (trouble trace course o policies) l))
                          (append_assoc before ((p, c) ∷ []) results))
            ],
            (refl, h, hs),
          )

    -- Without a trace there are no results.
    run_policies-unopened :
        (policies : List EvictionPolicy) (before : List (EvictionPolicy × BenchmarkCache))
        → trace o.trace_source ≡ none
        → (r : Outcome) × (run_policies now later trace course o before policies ≡ some r)
    unfolding run_policies sample_policy initialize
    run_policies-unopened [] before h = (summary before, refl)
    run_policies-unopened (p ∷ policies) before h = elim (Course-cases (course o p)) [
      | inl e ↦ (hangs, rw (run_policies, e) refl)
      | inr (inl e) ↦ (aborts, rw (run_policies, e) refl)
      | inr (inr (s, ends, stops, e)) ↦
          let (r, more) = run_policies-unopened policies (before ++ []) h in
          (r, rw (run_policies, e, sample_policy, h) more)
    ]

    run_policies-some :
        (policies : List EvictionPolicy) (before : List (EvictionPolicy × BenchmarkCache))
        → (r : Outcome) × (run_policies now later trace course o before policies ≡ some r)
    run_policies-some policies before = elim (Option-cases (trace o.trace_source)) [
      | inl e ↦ run_policies-unopened policies before e
      | inr (contents, e) ↦
          let (results, ends, hs) = run_policies_lem contents e policies before in
          (concluded (trouble trace course o policies) (before ++ results), ends)
    ]

  summarize-some :
      (o : Options) (policies : Option (List EvictionPolicy))
      → (r : Outcome) × (summarize now later trace course o policies ≡ some r)
  summarize-some o none = (exits 1, refl)
  summarize-some o (some policies) = run_policies-some o policies []

  after_arguments-some :
      (p : Parsed) → (r : Outcome) × (after_arguments now later trace course p ≡ some r)
  after_arguments-some helped = (exits 0, refl)
  after_arguments-some refused = (exits 1, refl)
  after_arguments-some uncaught = (aborts, refl)
  after_arguments-some (parsed o) = summarize-some o (policies_to_test o.algorithm)

  module _ (arguments : List Str) where
    -- If the arguments parse, the algorithm stands for policies, and the trace of the source holds
    -- a text, `main` ends as the first of the benchmarks of the policies that hangs or throws, and
    -- if none does, it returns a summary with one result for each of the policies, in their order.
    -- Each is from a valid cache of the capacity asked for whose total of requests, and whose sum
    -- of hits and misses, both up to the wrap at 2^64, is the number of lines before the first
    -- empty one, but 10000 at most.
    pub main_lem :
        (o : Options) (policies : List EvictionPolicy) (contents : Str)
        → parse_arguments arguments default_options ≡ parsed o
        → policies_to_test o.algorithm ≡ some policies
        → trace o.trace_source ≡ some contents
        → (results : List (EvictionPolicy × BenchmarkCache)) × (main now later trace course
              arguments
            ≡ some (concluded (trouble trace course o policies) results))
          × AreSampled (rounds contents) o.capacity policies results
    unfolding main
    main_lem o policies contents parses known opened =
        let (results, e, hs) = run_policies_lem o contents opened policies [] in
        (
          results,
          ap (after_arguments now later trace course) parses
              ∙ ap (summarize now later trace course o) known
              ∙ e,
          hs,
        )

    -- On any command line and any trace, `main` ends, or one of the benchmarks hangs: no loop of
    -- `main` itself, of the reading of the trace or of the cache in the sampling runs for ever.
    pub main_returns : (r : Outcome) × (main now later trace course arguments ≡ some r)
    unfolding main
    main_returns = after_arguments-some (parse_arguments arguments default_options)
