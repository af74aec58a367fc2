-- ===== src/PagedCache/RoundTrip.antt =====
-- What a client reads back after a call of its own.
use os_lab.Base.{
  ℕ, ◌+◌, ◌≡◌, refl, ◌⊎◌, inl, inr, ◌&&◌, none, some, List, [], ◌∷◌, Str, Str-discrete, ite, arith,
  ltb, leb, if◌then◌else◌, Bool-cases, Option-cases,
}
use os_lab.Keys.{count_key, remove_key}
use os_lab.Dict.{Dict, find, erase, put, find-erase_self}
use os_lab.Pages.{calculate_pages_needed}
use os_lab.PagedCache.{
  CacheEntry, PagedCache, OperationResult, success, key_exists, key_not_found, no_space,
  client_mismatch, add_key, update_key, get_key, delete_key, update_lru,
}
use os_lab.PagedCache.Valid.{IsValid}
use os_lab.PagedCache.Room.{room}
use os_lab.PagedCache.Add.{Stores, add_key_absent}
use os_lab.PagedCache.Branches.{add_found, update_absent, update_foreign}
use os_lab.PagedCache.Update.{update_key_own}

-- What the caller sees of a `get_key`: its result and its variable.
abbrev pub reads : Str → Str → ℕ → PagedCache → OperationResult × Str
reads key client now c = let (r, value, _) = get_key key [] client now c in (r, value)

reads-Stores :
    (key value client : Str) (now : ℕ) (c : PagedCache)
    → Stores key value client c.cache_map
    → reads key client now c ≡ (success, value)
unfolding get_key
reads-Stores key value client now c (e, found, same, mine) = ground arith

-- `add_key` succeeds exactly when the key is new, the value is not empty, and the free pages and
-- those of the other clients are enough for it; it says why not otherwise.
pub add_key_result :
    (n : ℕ) (key value client : Str) (now : ℕ) (c : PagedCache)
    → IsValid n c
    → (add_key key value client now c).0 ≡ (elim (find Str-discrete key c.cache_map) [
      | some _ ↦ key_exists
      | none ↦
          let need = calculate_pages_needed value in
          if ltb 0 need && leb need (room client c) then success else no_space
    ])
add_key_result n key value client now c v =
    elim (Option-cases (find Str-discrete key c.cache_map)) [
      | inl e ↦ ground (arith, (add_key_absent n key value client now c v e).result)
      | inr (x, e) ↦ rw (add_found key client c x e value now, e)
    ]

-- `update_key` succeeds exactly when the key is there, belongs to the client, and its old pages,
-- the free ones and those of the other clients are enough for the new value.
pub update_key_result :
    (n : ℕ) (key value client : Str) (now : ℕ) (c : PagedCache)
    → IsValid n c
    → (update_key key value client now c).0 ≡ (elim (find Str-discrete key c.cache_map) [
      | none ↦ key_not_found
      | some e ↦
          ite
            (Str-discrete e.client_id client)
            (if leb (calculate_pages_needed value) (room client c + e.total_pages)
              then success
              else no_space)
            client_mismatch
    ])
update_key_result n key value client now c v =
    elim (Option-cases (find Str-discrete key c.cache_map)) [
      | inl e ↦ ground (arith, update_absent key client c e value now)
      | inr (x, e) ↦ elim (Str-discrete x.client_id client) [
        | yes mine ↦ ground (arith, (update_key_own n key value client now c v x e mine).result)
        | no other ↦ ground (arith, update_foreign key client c x e other value now)
      ]
    ]

-- A key that was added is read back by its client, with the value that was added.
pub get_key-add_key :
    (n : ℕ) (key value client : Str) (now later : ℕ) (c : PagedCache)
    → IsValid n c
    → (add_key key value client now c).0 ≡ success
    → reads key client later (add_key key value client now c).1 ≡ (success, value)
get_key-add_key n key value client now later c v h =
    elim (Option-cases (find Str-discrete key c.cache_map)) [
      | inl e ↦
          reads-Stores key value client later (add_key key value client now c).1
            ((add_key_absent n key value client now c v e).stored h)
      | inr (x, e) ↦ absurd (ground (arith, add_found key client c x e value now))
    ]

-- After an update of its own key a client reads the new value if the update succeeded, and the
-- old one if it was refused for want of space: the entry is never lost.
pub get_key-update_key :
    (n : ℕ) (key value client : Str) (now later : ℕ) (c : PagedCache) (e : CacheEntry)
    → IsValid n c
    → find Str-discrete key c.cache_map ≡ some e
    → e.client_id ≡ client
    → let (r, c') = update_key key value client now c in
      ((r ≡ success) × (reads key client later c' ≡ (success, value)))
      ⊎ ((r ≡ no_space) × (reads key client later c' ≡ (success, e.value)))
get_key-update_key n key value client now later c e v found mine =
    let a = update_key_own n key value client now c v e found mine in
    let c' = (update_key key value client now c).1 in
    elim (Bool-cases (leb (calculate_pages_needed value) (room client c + e.total_pages))) [
      | inl t ↦
          let won : (update_key key value client now c).0 ≡ success = ground (arith, a.result) in
          inl (won, reads-Stores key value client later c' (a.stored won))
      | inr t ↦
          let lost : (update_key key value client now c).0 ≡ no_space = ground (arith, a.result) in
          inr (lost, reads-Stores key e.value client later c' (a.refused (λ h. cc)))
    ]

-- After a client deleted its key, nobody finds it.
pub get_key-delete_key :
    (n : ℕ) (key client reader : Str) (later : ℕ) (c : PagedCache)
    → IsValid n c
    → (delete_key key client c).0 ≡ success
    → reads key reader later (delete_key key client c).1 ≡ (key_not_found, [])
unfolding delete_key get_key
get_key-delete_key n key client reader later c v h =
    ground (arith, find-erase_self Str-discrete key c.cache_map v.distinct)

pub erase-put :
    (key : Str) (e : CacheEntry) (m : Dict Str CacheEntry)
    → find Str-discrete key m ≡ none
    → erase Str-discrete key (put Str-discrete key e m) ≡ m
unfolding find erase put
erase-put key e [] h = ground arith
erase-put key e ((k, x) ∷ m) h = ground (arith, erase-put key e m)

remove_key-absent :
    (key : Str) (order : List Str) → count_key key order ≡ 0 → remove_key key order ≡ order
unfolding count_key remove_key
remove_key-absent key [] h = refl
remove_key-absent key (k ∷ order) h = ground (arith, remove_key-absent key order)

pub remove_key-update_lru :
    (key : Str) (order : List Str)
    → count_key key order ≡ 0
    → remove_key key (update_lru key order) ≡ order
unfolding remove_key update_lru
remove_key-update_lru key order h = ground (arith, remove_key-absent key order h)
