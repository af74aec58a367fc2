-- ===== src/CacheBenchmark.antt =====
-- `main` of cache_benchmark.cpp: its command line, the policies that it tests, and for each of them
-- the run of the benchmark server, which may not end, and the sampling of a trace for the summary.
pub mod Arguments
pub mod Sample
pub mod Summary
mod Finished
mod Tests
use os_lab.Base.{
  ℕ, zero, suc, ◌+◌, Bool, true, false, ◌||◌, Option, none, some, List, [], ◌∷◌, ◌++◌, Str,
  Str-discrete, ite, map, if◌then◌else◌,
}
use os_lab.Protocol.{bytes, to_upper}
use os_lab.TraceProcessor.{TraceEntry, stoull, Stream, initialize, has_next, get_next}
use os_lab.BenchmarkCache.{create, get, put}
use os_lab.BenchmarkServer.Benchmark.{Course, completed, stuck, thrown}
use os_lab.BenchmarkCache.Policies.{EvictionPolicy, lru, fifo, sieve, clock, BenchmarkCache}

-- The variables that the arguments set.
pub record Options : Type 0 where
  pub capacity : ℕ
  pub trace_source : Str
  pub algorithm : Str
  pub is_url : Bool

abbrev pub default_options : Options
default_options = record {
  capacity = 10000;
  trace_source =
      bytes "https://analytics.wikimedia.org/published/datasets/caching/2019/text/cache-t-00.gz";
  algorithm = bytes "ALL";
  is_url = true;
}

pub data Flag : Type 0 where
  help_flag : Flag
  capacity_flag : Flag
  file_flag : Flag
  url_flag : Flag
  algorithm_flag : Flag
  unknown_flag : Flag

-- `(arg == short) || (arg == long)`
abbrev pub is_either : Str → Str → Str → Bool
is_either short long arg =
    ite (Str-discrete arg short) true false || ite (Str-discrete arg long) true false

unfoldable pub flag_of : Str → Flag
flag_of arg =
    if is_either (bytes "-h") (bytes "--help") arg
    then help_flag
    else if is_either (bytes "-c") (bytes "--capacity") arg
    then capacity_flag
    else if is_either (bytes "-f") (bytes "--file") arg
    then file_flag
    else if is_either (bytes "-u") (bytes "--url") arg
    then url_flag
    else if is_either (bytes "-a") (bytes "--algorithm") arg
    then algorithm_flag
    else unknown_flag

-- How the loop over the arguments ends: with the options, with the help and code 0, with an error
-- message and code 1, or with the exception of `std::stoull`, which nothing catches.
pub data Parsed : Type 0 where
  parsed : Options → Parsed
  helped : Parsed
  refused : Parsed
  uncaught : Parsed

-- An argument without another behind it.
abbrev pub last_argument : Flag → Parsed
last_argument help_flag = helped
last_argument capacity_flag = refused
last_argument file_flag = refused
last_argument url_flag = refused
last_argument algorithm_flag = refused
last_argument unknown_flag = refused

-- What follows `std::stoull`.
abbrev pub with_capacity : Option ℕ → (ℕ → Parsed) → Parsed
with_capacity none next = uncaught
with_capacity (some n) next = next n

unfoldable pub parse_arguments : List Str → Options → Parsed
unfolding flag_of stoull
parse_arguments [] o = parsed o
parse_arguments (arg ∷ []) o = last_argument (flag_of arg)
parse_arguments (arg ∷ value ∷ rest) o = elim (flag_of arg) [
  | help_flag ↦ helped
  | capacity_flag ↦
      with_capacity (stoull value) (λ n. parse_arguments rest (record o { capacity = n }))
  | file_flag ↦ parse_arguments rest (record o { trace_source = value; is_url = false })
  | url_flag ↦ parse_arguments rest (record o { trace_source = value; is_url = true })
  | algorithm_flag ↦ parse_arguments rest (record o { algorithm = value })
  | unknown_flag ↦ refused
]

-- `none` is the exception for a name that is no policy.
unfoldable pub string_to_policy : Str → Option EvictionPolicy
unfolding to_upper
string_to_policy policy_str =
    let upper_str = map to_upper policy_str in
    ite (Str-discrete upper_str (bytes "LRU")) (some lru) (
      ite (Str-discrete upper_str (bytes "FIFO")) (some fifo) (
        ite (Str-discrete upper_str (bytes "SIEVE")) (some sieve)
          (ite (Str-discrete upper_str (bytes "CLOCK")) (some clock) none)))

abbrev pub one_policy : Option EvictionPolicy → Option (List EvictionPolicy)
one_policy none = none
one_policy (some p) = some (p ∷ [])

unfoldable pub policies_to_test : Str → Option (List EvictionPolicy)
unfolding string_to_policy
policies_to_test algorithm =
    ite (Str-discrete algorithm (bytes "ALL")) (some (lru ∷ fifo ∷ sieve ∷ clock ∷ []))
      (one_policy (string_to_policy algorithm))

-- What follows the `get` of a round.
abbrev pub put_if_missed : Str → ℕ → Bool × Str × BenchmarkCache → Option BenchmarkCache
put_if_missed key time (true, value, c) = some c
put_if_missed key time (false, value, c) = elim (put key (bytes "dummy_value") time c) [
  | none ↦ none
  | some (ok, c') ↦ some c'
]

-- What follows a round.
abbrev pub after_key :
    (Stream → BenchmarkCache → Option BenchmarkCache)
    → Stream
    → Option BenchmarkCache
    → Option BenchmarkCache
after_key rest s none = none
after_key rest s (some c) = rest s c

-- The times at a round: when `get` and when `put` read the clock.
module _ (now later : ℕ → ℕ) where
  unfoldable pub sample_key : ℕ → Str → BenchmarkCache → Option BenchmarkCache
  unfolding get
  sample_key left key c = put_if_missed key (later left) (get key [] (now left) c)

  -- A round with the key that was read.
  abbrev pub sample_entry :
      (Stream → BenchmarkCache → Option BenchmarkCache)
      → ℕ
      → Str
      → Stream
      → BenchmarkCache
      → Option BenchmarkCache
  sample_entry rest left [] s c = some c
  sample_entry rest left (x ∷ key) s c = after_key rest s (sample_key left (x ∷ key) c)

  abbrev pub sample_round :
      (Stream → BenchmarkCache → Option BenchmarkCache)
      → ℕ
      → TraceEntry × Stream
      → BenchmarkCache
      → Option BenchmarkCache
  sample_round rest left (entry, s) c = sample_entry rest left entry.key s c

  -- The sampling loop, by the rounds that are left of `count < 10000`.
  unfoldable pub sample_loop : ℕ → Stream → BenchmarkCache → Option BenchmarkCache
  unfolding has_next get_next
  sample_loop zero s c = some c
  sample_loop (suc left) s c = elim (has_next s) [
    | false ↦ some c
    | true ↦ sample_round (sample_loop left) left (get_next s) c
  ]

-- The entry of `results` for a policy: the cache whose counters make the hit ratio, if the trace
-- can be opened.
abbrev pub result_of :
    EvictionPolicy → Option BenchmarkCache → Option (List (EvictionPolicy × BenchmarkCache))
result_of policy none = none
result_of policy (some c) = some ((policy, c) ∷ [])

pub data Outcome : Type 0 where
  exits : ℕ → Outcome
  aborts : Outcome
  hangs : Outcome
  summary : List (EvictionPolicy × BenchmarkCache) → Outcome

-- `trace` is what the file of a source holds, if it can be opened once `TraceProcessor` has fetched
-- it.
module _ (now later : EvictionPolicy → ℕ → ℕ) (trace : Str → Option Str) where
  unfoldable pub sample_policy :
      Options → EvictionPolicy → Option (List (EvictionPolicy × BenchmarkCache))
  unfolding initialize sample_loop create
  sample_policy o policy = elim (initialize (trace o.trace_source)) [
    | none ↦ some []
    | some s ↦
        result_of policy
          (sample_loop (now policy) (later policy) 10000 s (create o.capacity policy))
  ]

  -- How the benchmark of a policy goes is an argument.
  module _
      (course : (o : Options) (p : EvictionPolicy)
        → Course o.capacity p (trace o.trace_source)) where
    -- The loop over the policies, with the results so far.
    unfoldable pub run_policies :
        Options → List (EvictionPolicy × BenchmarkCache) → List EvictionPolicy → Option Outcome
    unfolding sample_policy
    run_policies o results [] = some (summary results)
    run_policies o results (policy ∷ policies) = elim (course o policy) [
      | stuck ↦ some hangs
      | thrown ↦ some aborts
      | completed s ends stops ↦ elim (sample_policy o policy) [
        | none ↦ none
        | some more ↦ run_policies o (results ++ more) policies
      ]
    ]

    -- What follows the list of policies.
    abbrev pub summarize : Options → Option (List EvictionPolicy) → Option Outcome
    summarize o none = some (exits 1)
    summarize o (some policies) = run_policies o [] policies

    -- What follows the loop over the arguments.
    abbrev pub after_arguments : Parsed → Option Outcome
    after_arguments helped = some (exits 0)
    after_arguments refused = some (exits 1)
    after_arguments uncaught = some aborts
    after_arguments (parsed o) = summarize o (policies_to_test o.algorithm)

    -- `none` would be a call of `put` that does not return.
    unfoldable pub main : List Str → Option Outcome
    unfolding parse_arguments policies_to_test run_policies
    main arguments = after_arguments (parse_arguments arguments default_options)
