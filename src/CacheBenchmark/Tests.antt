-- ===== src/CacheBenchmark/Tests.antt =====
-- Runs of cache_benchmark.cpp on small command lines and traces, and the theorems at them.
use os_lab.Base.{
  arith, ℕ, ◌≡◌, refl, false, Option, none, some, List, [], ◌∷◌, ◌++◌, Str, Str-discrete,
}
use os_lab.Protocol.{bytes}
use os_lab.TraceProcessor.{stoull}
use os_lab.BenchmarkCache.Policies.{EvictionPolicy, lru, BenchmarkCache}
use os_lab.CacheBenchmark.{
  Options, default_options, parsed, helped, refused, uncaught, parse_arguments, policies_to_test,
  main,
}
use os_lab.CacheBenchmark.Arguments.{arguments_for, parse_arguments-arguments_for}
use os_lab.CacheBenchmark.Summary.{rounds, AreSampled, trouble, concluded, main_lem}
use os_lab.CacheBenchmark.Finished.{line, one_course}
use os_lab.BenchmarkServer.Benchmark.{Course}
use os_lab.BenchmarkCache.{put}
use os_lab.Dict.{find}

abbrev arguments : List Str
arguments = bytes "-c" ∷ bytes "2" ∷ bytes "-f" ∷ bytes "t" ∷ bytes "-a" ∷ bytes "lru" ∷ []

abbrev options : Options
options = record { capacity = 2; trace_source = bytes "t"; algorithm = bytes "lru"; is_url = false }

parse_arguments_read : parse_arguments arguments default_options ≡ parsed options
unfolding parse_arguments stoull Str-discrete
parse_arguments_read = refl

parse_arguments_help :
    parse_arguments (bytes "-a" ∷ bytes "no such" ∷ bytes "-h" ∷ []) default_options ≡ helped
unfolding parse_arguments Str-discrete
parse_arguments_help = refl

parse_arguments_missing : parse_arguments (bytes "-c" ∷ []) default_options ≡ refused
unfolding parse_arguments Str-discrete
parse_arguments_missing = refl

parse_arguments_thrown : parse_arguments (bytes "-c" ∷ bytes "x" ∷ []) default_options ≡ uncaught
unfolding parse_arguments stoull Str-discrete
parse_arguments_thrown = refl

policies_known : policies_to_test (bytes "lru") ≡ some (lru ∷ [])
unfolding policies_to_test Str-discrete
policies_known = refl

policies_unknown : policies_to_test (bytes "all") ≡ none
unfolding policies_to_test Str-discrete
policies_unknown = refl

abbrev times : EvictionPolicy → ℕ → ℕ
times policy left = left

abbrev trace : Str → Option Str
trace source = some line

abbrev course : (o : Options) (p : EvictionPolicy) → Course o.capacity p (trace o.trace_source)
unfolding one_course
course o p = one_course o.capacity p

-- The benchmark of LRU comes back.
no_trouble : trouble trace course options (lru ∷ []) ≡ none
unfolding trouble one_course put find Str-discrete
no_trouble = refl

main_lem_example :
    (results : List (EvictionPolicy × BenchmarkCache)) × (main times times trace course arguments
      ≡ some (concluded (trouble trace course options (lru ∷ [])) results))
    × AreSampled (rounds line) 2 (lru ∷ []) results
main_lem_example =
    main_lem times times trace course arguments options (lru ∷ []) line parse_arguments_read
      policies_known refl

parse_arguments-arguments_for_example :
    parse_arguments (arguments_for options ++ bytes "-h" ∷ []) default_options
    ≡ parse_arguments (bytes "-h" ∷ []) options
parse_arguments-arguments_for_example =
    parse_arguments-arguments_for options default_options (bytes "-h" ∷ []) (omega arith)
