-- ===== src/BenchmarkCache/Policies.antt =====
-- The state of `BenchmarkCache`, and what its four policies do on an eviction, on a use and on a
-- new key.
use os_lab.Base.{
  ℕ, zero, suc, ◌+◌, ◌%◌, Bool, true, false, Option, none, some, List, [], ◌∷◌, ◌++◌, Str,
  Str-discrete, if◌then◌else◌, length, get_elem?, set,
}
use os_lab.Keys.{remove_key}
use os_lab.Texts.{is_empty}
use os_lab.Dict.{Dict, find, erase, put}

pub data EvictionPolicy : Type 0 where
  lru fifo sieve clock : EvictionPolicy

pub record BenchmarkCacheEntry : Type 0 where
  pub key : Str
  pub value : Str
  pub access_time : ℕ
  pub insert_time : ℕ
  pub visited : Bool
  pub reference_bit : Bool

abbrev pub Entries : Type 0
Entries = Dict Str BenchmarkCacheEntry

pub record BenchmarkCache : Type 0 where
  pub max_capacity : ℕ
  pub policy : EvictionPolicy
  pub cache_map : Entries
  pub hit_count : ℕ
  pub miss_count : ℕ
  pub total_requests : ℕ
  pub lru_order : List Str
  pub fifo_queue : List Str
  pub sieve_order : List Str
  pub clock_buffer : List Str
  pub clock_hand : ℕ

-- A write to the entry of a key, if there is one.
unfoldable pub update_entry : Str → (BenchmarkCacheEntry → BenchmarkCacheEntry) → Entries → Entries
update_entry key f m = elim (find Str-discrete key m) [
  | none ↦ m
  | some e ↦ put Str-discrete key (f e) m
]

-- `lru_order.back()` and what `pop_back()` leaves.
unfoldable pub last_of : Str → List Str → Str
last_of k [] = k
last_of k (j ∷ order) = last_of j order

unfoldable pub pop_back : Str → List Str → List Str
pop_back k [] = []
pop_back k (j ∷ order) = k ∷ pop_back j order

abbrev pub evict_back : List Str → BenchmarkCache → BenchmarkCache
evict_back [] c = c
evict_back (k ∷ order) c = record c {
  lru_order = pop_back k order;
  cache_map = erase Str-discrete (last_of k order) c.cache_map;
}

unfoldable pub evict_lru : BenchmarkCache → BenchmarkCache
unfolding last_of pop_back
evict_lru c = evict_back c.lru_order c

unfoldable pub update_lru : Str → BenchmarkCache → BenchmarkCache
unfolding remove_key
update_lru key c = record c { lru_order = key ∷ remove_key key c.lru_order }

unfoldable pub add_lru : Str → BenchmarkCache → BenchmarkCache
add_lru key c = record c { lru_order = key ∷ c.lru_order }

-- The queue's front is the head of the list.
abbrev pub evict_front : List Str → BenchmarkCache → BenchmarkCache
evict_front [] c = c
evict_front (k ∷ queue) c = record c {
  fifo_queue = queue;
  cache_map = erase Str-discrete k c.cache_map;
}

unfoldable pub evict_fifo : BenchmarkCache → BenchmarkCache
evict_fifo c = evict_front c.fifo_queue c

unfoldable pub update_fifo : Str → BenchmarkCache → BenchmarkCache
update_fifo key c = c

unfoldable pub add_fifo : Str → BenchmarkCache → BenchmarkCache
add_fifo key c = record c { fifo_queue = c.fifo_queue ++ key ∷ [] }

pub record Sweep : Type 0 where
  pub victim : Option Str
  pub order : List Str
  pub entries : Entries

abbrev pub keep_key : Str → Sweep → Sweep
keep_key key s = record s { order = key ∷ s.order }

-- The loop of `evict_sieve` from some place of the order on: the victim if it finds one, the order
-- that is left and the entries with the flags that it reset.
unfoldable pub sweep : List Str → Entries → Sweep
sweep [] m = record { victim = none; order = []; entries = m }
sweep (key ∷ order) m = elim (find Str-discrete key m) [
  | none ↦ sweep order m
  | some e ↦ elim e.visited [
    | false ↦ record { victim = some key; order = order; entries = erase Str-discrete key m }
    | true ↦ keep_key key (sweep order (put Str-discrete key (record e { visited = false }) m))
  ]
]

-- What follows the loop if all keys were visited.
abbrev pub evict_first : List Str → Entries → BenchmarkCache → BenchmarkCache
evict_first [] m c = record c { sieve_order = []; cache_map = m }
evict_first (key ∷ order) m c = record c {
  sieve_order = order;
  cache_map = erase Str-discrete key m;
}

abbrev pub after_sweep : Sweep → BenchmarkCache → BenchmarkCache
after_sweep s c = elim s.victim [
  | some _ ↦ record c { sieve_order = s.order; cache_map = s.entries }
  | none ↦ evict_first s.order s.entries c
]

unfoldable pub evict_sieve : BenchmarkCache → BenchmarkCache
unfolding sweep
evict_sieve c = after_sweep (sweep c.sieve_order c.cache_map) c

unfoldable pub update_sieve : Str → BenchmarkCache → BenchmarkCache
unfolding update_entry
update_sieve key c = record c {
  cache_map = update_entry key (λ e. record e { visited = true }) c.cache_map;
}

unfoldable pub add_sieve : Str → BenchmarkCache → BenchmarkCache
unfolding update_entry
add_sieve key c = record c {
  sieve_order = c.sieve_order ++ key ∷ [];
  cache_map = update_entry key (λ e. record e { visited = false }) c.cache_map;
}

-- One round of the loop of `evict_clock`: it ends, or goes on from the next slot.
pub data Round : Type 0 where
  evicted : BenchmarkCache → Round
  again : BenchmarkCache → Round

abbrev pub advance : BenchmarkCache → BenchmarkCache
advance c = record c { clock_hand = (c.clock_hand + 1) % length c.clock_buffer }

unfoldable pub clock_round : Str → BenchmarkCache → Round
clock_round current_key c = elim (find Str-discrete current_key c.cache_map) [
  | none ↦ again (advance c)
  | some e ↦ elim e.reference_bit [
    | false ↦ evicted (record c {
      cache_map = erase Str-discrete current_key c.cache_map;
      clock_buffer = set c.clock_buffer c.clock_hand [];
    })
    | true ↦ again (
        advance (record c {
          cache_map = put Str-discrete current_key (record e { reference_bit = false }) c.cache_map;
        }))
  ]
]

-- The loop has no bound in the source. `none` means that the fuel ran out, or that the hand is
-- outside of the buffer.
unfoldable pub clock_loop : ℕ → BenchmarkCache → Option BenchmarkCache
unfolding clock_round
clock_loop zero c = none
clock_loop (suc fuel) c = elim (get_elem? c.clock_buffer c.clock_hand) [
  | none ↦ none
  | some current_key ↦ elim (clock_round current_key c) [
    | evicted c' ↦ some c'
    | again c' ↦ clock_loop fuel c'
  ]
]

abbrev pub evict_slot : List Str → BenchmarkCache → Option BenchmarkCache
evict_slot [] c = some c
evict_slot (k ∷ buffer) c = clock_loop (suc (length c.cache_map)) c

unfoldable pub evict_clock : BenchmarkCache → Option BenchmarkCache
unfolding clock_loop
evict_clock c = evict_slot c.clock_buffer c

unfoldable pub update_clock : Str → BenchmarkCache → BenchmarkCache
unfolding update_entry
update_clock key c = record c {
  cache_map = update_entry key (λ e. record e { reference_bit = true }) c.cache_map;
}

-- The first slot whose key is empty gets the key; without one the buffer grows.
unfoldable pub fill_slot : Str → List Str → List Str
fill_slot key [] = key ∷ []
fill_slot key (k ∷ buffer) = if is_empty k then key ∷ buffer else k ∷ fill_slot key buffer

unfoldable pub add_clock : Str → BenchmarkCache → BenchmarkCache
unfolding fill_slot update_entry
add_clock key c = record c {
  clock_buffer = fill_slot key c.clock_buffer;
  cache_map = update_entry key (λ e. record e { reference_bit = true }) c.cache_map;
}
