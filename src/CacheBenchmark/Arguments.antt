-- ===== src/CacheBenchmark/Arguments.antt =====
-- The command line of cache_benchmark.cpp: what its loop over the arguments reads back.
use os_lab.Base.{
  ◌^◌, ◌<◌, ◌≡◌, refl, ap, ◌∙◌, Bool, true, false, some, List, [], ◌∷◌, ◌++◌, ℕ, Str, Str-discrete,
}
use os_lab.Decimal.{to_string}
use os_lab.Protocol.{bytes}
use os_lab.TraceProcessor.{stoull}
use os_lab.TraceProcessor.Numbers.{stoull-to_string}
use os_lab.CacheBenchmark.{Options, with_capacity, parse_arguments}

abbrev pub source_flag : Bool → Str
source_flag true = bytes "--url"
source_flag false = bytes "-f"

-- A command line for options.
abbrev pub arguments_for : Options → List Str
arguments_for o =
    bytes "--capacity"
    ∷ to_string o.capacity
    ∷ source_flag o.is_url
    ∷ o.trace_source
    ∷ bytes "-a"
    ∷ o.algorithm
    ∷ []

parse_arguments-capacity :
    (value : Str) (n : ℕ) (rest : List Str) (o : Options)
    → stoull value ≡ some n
    → parse_arguments (bytes "--capacity" ∷ value ∷ rest) o
      ≡ parse_arguments rest (record o { capacity = n })
unfolding parse_arguments Str-discrete
parse_arguments-capacity value n rest o h =
    ap (λ r. with_capacity r (λ k. parse_arguments rest (record o { capacity = k }))) h

parse_arguments-source :
    (b : Bool) (source algorithm : Str) (rest : List Str) (o : Options)
    → parse_arguments (source_flag b ∷ source ∷ bytes "-a" ∷ algorithm ∷ rest) o
      ≡ parse_arguments rest (record o { trace_source = source; algorithm = algorithm; is_url = b })
unfolding parse_arguments Str-discrete
parse_arguments-source true source algorithm rest o = refl
parse_arguments-source false source algorithm rest o = refl

-- The arguments printed for options whose capacity fits into 64 bits set all of them, whatever was
-- set before, and the loop goes on with what is behind them: what comes last counts.
pub parse_arguments-arguments_for :
    (o before : Options) (rest : List Str)
    → o.capacity < 2 ^ 64
    → parse_arguments (arguments_for o ++ rest) before ≡ parse_arguments rest o
parse_arguments-arguments_for o before rest h =
    parse_arguments-capacity (to_string o.capacity) o.capacity
      (source_flag o.is_url ∷ o.trace_source ∷ bytes "-a" ∷ o.algorithm ∷ rest) before
      (stoull-to_string o.capacity h)
    ∙ parse_arguments-source o.is_url o.trace_source o.algorithm rest
        (record before { capacity = o.capacity })
