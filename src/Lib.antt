-- ===== src/Lib.antt =====
-- Verification of a paged key-value cache server and of the caches of its benchmark.
--
-- The server keeps the values of its clients in pages of 40 KB. A client sends a command as text;
-- the server parses it, calls the cache and answers with a text. Each entry belongs to the client
-- that added it. If the pages run out, the cache evicts entries of other clients, the oldest first.
-- The benchmark has a second cache, of a number of entries, with four policies of eviction.
--
-- The parts and their files:
--   * Pages (cache.h, cache.cpp): the page allocator of `PagedCache`, which is the bitmap and the
--     sorted list of free blocks. `allocate_pages_linked` takes pages block by block and rolls back
--     if they are too few; `deallocate_pages_linked` frees them, inserts blocks into the list and
--     merges neighbours. A list of blocks stands for the linked nodes, and a list of page numbers
--     for the `MemoryBlock`s of an entry. Counts, Bitmap, Order, Sound, Release, Allocate and Free
--     prove what these keep. Contiguous has the methods for contiguous pages, which nothing calls,
--     Fragments the statistics on fragmentation, and Runs what they keep.
--   * PagedCache (cache.h, cache.cpp): the entries, the order of use and the operations `add_key`,
--     `update_key`, `get_key` and `delete_key`, with the eviction. The mutex is held throughout
--     each of them, so each is one step; a call gets the time that the clock shows as an argument.
--     Valid has the invariant, Evict, Room and Write what the steps keep, Branches the results
--     branch by branch, Add and Update the longer operations, Steps any sequence of calls,
--     Stretches what the loop of the eviction takes, Foreign, RoundTrip, Space and Lru what a
--     client sees.
--   * Protocol (protocol.h, protocol.cpp): from the text of a message to a `Command`, and the texts
--     of the answers (Protocol/Response). A text is a list of bytes. Printed has the messages that
--     README.md describes, and RoundTrip what is parsed of them.
--   * Server (server.h, server.cpp): `process_command`, which calls `PagedCache` by the command and
--     answers (Server/Commands). Server/Connections has the table of clients, how they come and go
--     and `send_response`; Server/Data has `handle_client_data` with its two loops and the events
--     of `run`; Served, Sent and Events prove what these keep. Server/Receive finds the messages in
--     a client's bytes, and has a reference, `receive`, of the answers where all are sent, which
--     only the proofs use; Chunks is about bytes that come in parts, Wire finds a printed message
--     in them, Pipeline many, and Answers and Conversation are about what `handle_client_data`
--     sends for them. Readings and Joined say how its loops follow one another, and Chunking that it
--     does not depend on the parts in which the bytes come, whatever `send` does. Startup has `start` and
--     `stop`, Log what a list of effects makes of descriptors, Lifecycle what the events do to
--     them, Stopping what `stop` closes, and Session a run from `start` to `stop`. What the calls
--     of the system return is an argument, and the bytes sent and the descriptors opened and closed
--     are listed as effects.
--   * BenchmarkCache (benchmark_cache.h, benchmark_cache.cpp): `get` and `put` with the policies
--     LRU, FIFO, SIEVE and CLOCK (BenchmarkCache/Policies). Valid has the invariant, Clock, Orders,
--     Sieve and Evict the evictions, Touch and Insert a use and a new key, Put, Serve and Run the
--     calls, Counters the statistics, References calls that a reference replays, Disciplines and
--     Replays that of LRU and FIFO, Marks, SieveMarks and SieveReplays that of SIEVE.
--   * BenchmarkServer (benchmark_server.h, benchmark_server.cpp): the queue of requests, the worker
--     threads and the main thread as a step relation over any number of workers, where a step is
--     one access to what they share. A call of the cache holds the cache's own mutex and is one
--     step. Workers has the invariant and the steps of a worker, Reachable all steps, Stop the
--     shutdown, Trace the loop of `run_trace_benchmark`, Counted what the counters count, and
--     Benchmark the main thread of `run_single_benchmark` from the first request to `stop`.
--   * TraceProcessor (trace_processor.h, trace_processor.cpp): which file is read, and how its
--     lines become entries (Lines, Numbers). The file system and the programs that download and
--     extract are parameters.
--   * CacheBenchmark (cache_benchmark.cpp): the command line, the policies to test, and for
--     each the run of the benchmark server and the sampling of the trace that makes the results of
--     `main`. The run of the server is a value of `Course` in BenchmarkServer/Benchmark: steps of
--     its threads that lead behind `stop`, or that it hangs or throws. Arguments is about the
--     command line, Sample and Summary about the caches and the end of `main`, and Finished has a
--     run that ends. What the trace of a source holds is a parameter.
--   * Main (main.cpp): the command line of the server, which may name its port, and in Main/Program
--     the run from there to the code of the program, with the exceptions that end it: `Ending` says
--     where one comes, and what it leaves of the cache and of a client's buffer, which may be
--     anything. Main/Endings is about the descriptors.
--   * Base, Dict, Keys, Texts and Decimal are shared: bytes and texts, decimal numbers, the hash
--     maps as lists of pairs with `find`, `put` and `erase`, and keys in an order. The iteration
--     order of a hash map is used nowhere.
--
-- Bounds and fuel: `calculate_pages_needed` wraps at 2^64 as `size_t` does, and so do the counters
-- of the benchmark's cache. The number of pages is a parameter of the invariant of `PagedCache`;
-- cache.h fixes it at 52428, the pages in 2 GB. The loop of `evict_clock` in benchmark_cache.cpp
-- has no bound: here it has fuel for one round more than there are entries, which is enough, since
-- each round but the last takes a reference bit away. The loop over the messages of a buffer has
-- fuel for each byte, and a message has four at least; the loop over a trace has it for each byte
-- and one more, and each line takes one. `send_response` tries for ever while a socket blocks; its
-- model goes through the given results of `send` and gives no answer where they run out. All other
-- loops are structural recursion.
--
-- Not modelled: what the system does with sockets and with epoll; in benchmark_server.cpp the
-- listener thread, which only sleeps, and the times; all printing; in main.cpp a signal that
-- interrupts an event, and an exception in `start`; in cache_benchmark.cpp when a run of the
-- server hangs and when memory gives out, which may be at any time; fragmentation_test.cpp, a test
-- that prints; and the hit ratios and the ratio of fragmentation, which are floating-point numbers.
pub mod Base
pub mod Dict
pub mod Texts
pub mod Keys
pub mod Decimal
pub mod Pages
pub mod PagedCache
pub mod Protocol
pub mod BenchmarkCache
pub mod Server
pub mod TraceProcessor
pub mod BenchmarkServer
pub mod CacheBenchmark
pub mod Main
