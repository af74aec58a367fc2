-- ===== src/TraceProcessor/Tests.antt =====
-- Runs of the reader of traces on small inputs.
use os_lab.Base.{◌^◌, ◌-◌, ◌≡◌, refl, Bool, true, false, none, some, Str}
use os_lab.Protocol.{bytes}
use os_lab.TraceProcessor.{stoull, parse_line, trace_file_path}

stoull_prefix : stoull (bytes " +12x") ≡ some 12
unfolding stoull
stoull_prefix = refl

stoull_negative : stoull (bytes "-1") ≡ some (2 ^ 64 - 1)
unfolding stoull
stoull_negative = refl

stoull_refused : stoull (bytes "x1") ≡ none
unfolding stoull
stoull_refused = refl

parse_line_three :
    parse_line (bytes "17 key 40 rest")
    ≡ record { key = bytes "key"; operation = bytes "GET"; size = 40 }
unfolding parse_line
parse_line_three = refl

parse_line_simple :
    parse_line (bytes "a key")
    ≡ record { key = bytes "a key"; operation = bytes "GET"; size = 1024 }
unfolding parse_line
parse_line_simple = refl

abbrev none_there : Str → Bool
none_there path = false

abbrev succeeds : Str → Str → Bool
succeeds from to = true

path_local : trace_file_path none_there succeeds succeeds (bytes "file://t.gz") ≡ bytes "t.gz"
unfolding trace_file_path
path_local = refl

path_extracted : trace_file_path none_there succeeds succeeds (bytes "http://h/t.gz") ≡ bytes "./t"
unfolding trace_file_path
path_extracted = refl

-- `.gz` counts anywhere in the name, but the last three characters go.
path_cut :
    trace_file_path none_there succeeds succeeds (bytes "http://h/t.gz.old") ≡ bytes "./t.gz."
unfolding trace_file_path
path_cut = refl
