-- ===== src/PagedCache/Steps.antt =====
-- Any sequence of calls of `PagedCache`: the invariant holds throughout, and clients are kept
-- apart.
use os_lab.Base.{
  ℕ, ◌<◌, ◌≡◌, refl, ◌≢◌, ◌⊎◌, inl, inr, sym, ◌∙◌, none, List, [], ◌∷◌, Str, Str-discrete, arith,
  Option-cases,
}
use os_lab.Dict.{find, erase, find-erase}
use os_lab.PagedCache.{
  CacheEntry, PagedCache, OperationResult, init, add_key, update_key, get_key, delete_key,
  touch_entry, evictable,
}
use os_lab.PagedCache.Valid.{IsValid, init-IsValid}
use os_lab.PagedCache.Room.{Spares-refl}
use os_lab.PagedCache.Write.{same_blocks-IsValid, removed-IsValid}
use os_lab.PagedCache.Add.{Others, Spares-Others, put-Others, add_key_absent}
use os_lab.PagedCache.Branches.{
  add_found, update_absent, update_foreign, get_absent, get_foreign, get_own, delete_own,
  delete_absent, delete_foreign,
}
use os_lab.PagedCache.Update.{update_key_own}

pub data Call : Type 0 where
  add update : Str → Str → Call
  get delete : Str → Call

abbrev pub call_key : Call → Str
call_key (add key value) = key
call_key (update key value) = key
call_key (get key) = key
call_key (delete key) = key

-- A call by a client at a time: the result and the new state.
unfoldable pub apply : Str → ℕ → Call → PagedCache → OperationResult × PagedCache
apply client now (add key value) c = add_key key value client now c
apply client now (update key value) c = update_key key value client now c
apply client now (get key) c = let (r, _, c') = get_key key [] client now c in (r, c')
apply client now (delete key) c = delete_key key client c

unfoldable pub run : List (Str × ℕ × Call) → PagedCache → PagedCache
run [] c = c
run ((client, now, call) ∷ calls) c = run calls (apply client now call c).1

-- What any call keeps.
pub record Kept (n : ℕ) (client key : Str) (c c' : PagedCache) : Type 0 where
  pub valid : IsValid n c'
  pub others : Others client key c.cache_map c'.cache_map

unchanged : (n : ℕ) (client key : Str) (c : PagedCache) → IsValid n c → Kept n client key c c
unchanged n client key c v = record {
  valid = v;
  others = Spares-Others client key c.cache_map c.cache_map (Spares-refl client c.cache_map);
}

erase-Others :
    (n : ℕ) (client key : Str) (c : PagedCache)
    → IsValid n c
    → Others client key c.cache_map (erase Str-discrete key c.cache_map)
erase-Others n client key c v = record {
  same = λ k e d h. ground (arith, find-erase Str-discrete key k c.cache_map v.distinct);
  spared = λ k e d h m. ground (arith, find-erase Str-discrete key k c.cache_map v.distinct);
}

module _ (n : ℕ) (client : Str) (now : ℕ) (c : PagedCache) (v : IsValid n c) where
  add-Kept : (key value : Str) → Kept n client key c (add_key key value client now c).1
  add-Kept key value = elim (Option-cases (find Str-discrete key c.cache_map)) [
    | inl e ↦
        let a = add_key_absent n key value client now c v e in
        record { valid = a.valid; others = a.others }
    | inr (x, e) ↦ rw (add_found key client c x e value now) (unchanged n client key c v)
  ]

  update-Kept : (key value : Str) → Kept n client key c (update_key key value client now c).1
  update-Kept key value = elim (Option-cases (find Str-discrete key c.cache_map)) [
    | inl e ↦ rw (update_absent key client c e value now) (unchanged n client key c v)
    | inr (x, e) ↦ elim (Str-discrete x.client_id client) [
      | yes mine ↦
          let a = update_key_own n key value client now c v x e mine in
          record { valid = a.valid; others = a.others }
      | no other ↦ rw (update_foreign key client c x e other value now) (unchanged n client key c v)
    ]
  ]

  get-Kept : (key value : Str) → Kept n client key c (get_key key value client now c).2
  get-Kept key value = elim (Option-cases (find Str-discrete key c.cache_map)) [
    | inl e ↦ rw (get_absent key client c e value now) (unchanged n client key c v)
    | inr (x, e) ↦ elim (Str-discrete x.client_id client) [
      | yes mine ↦
          let x' : CacheEntry = record x { last_access = now } in
          unfold touch_entry in
          rw (get_own key client c x e mine value now) (record {
            valid = same_blocks-IsValid n c v key x e x' refl refl;
            others =
                put-Others client key c.cache_map c.cache_map x'
                  (unchanged n client key c v).others;
          })
      | no other ↦ rw (get_foreign key client c x e other value now) (unchanged n client key c v)
    ]
  ]

  delete-Kept : (key : Str) → Kept n client key c (delete_key key client c).1
  delete-Kept key = elim (Option-cases (find Str-discrete key c.cache_map)) [
    | inl e ↦ rw (delete_absent key client c e) (unchanged n client key c v)
    | inr (x, e) ↦ elim (Str-discrete x.client_id client) [
      | yes mine ↦
          rw (delete_own key client c x e mine) (record {
            valid = removed-IsValid n c v key x e;
            others = erase-Others n client key c v;
          })
      | no other ↦ rw (delete_foreign key client c x e other) (unchanged n client key c v)
    ]
  ]

  pub apply-Kept : (call : Call) → Kept n client (call_key call) c (apply client now call c).1
  unfolding apply
  apply-Kept (add key value) = add-Kept key value
  apply-Kept (update key value) = update-Kept key value
  apply-Kept (get key) = get-Kept key []
  apply-Kept (delete key) = delete-Kept key

-- Whatever the result of a call, an entry at any other key is as it was, or it is gone and was one
-- of another client: a client never loses or changes its entries through calls of others at other
-- keys of theirs, except by eviction, and never through its own calls at other keys.
pub apply-isolation :
    (n : ℕ) (client : Str) (now : ℕ) (call : Call) (c : PagedCache) (k : Str)
    → IsValid n c
    → k ≢ call_key call
    → let c' = (apply client now call c).1 in
      (find Str-discrete k c'.cache_map ≡ find Str-discrete k c.cache_map)
      ⊎ ((find Str-discrete k c'.cache_map ≡ none)
          × (evictable client (find Str-discrete k c.cache_map) ≡ find Str-discrete k c.cache_map))
unfolding evictable
apply-isolation n client now call c k v d =
    let kept = (apply-Kept n client now c v call).others in
    let m' = (apply client now call c).1.cache_map in
    elim (Option-cases (find Str-discrete k m')) [
      | inr (x, e) ↦ inl (e ∙ sym (kept.same k x d e))
      | inl e ↦ elim (Option-cases (find Str-discrete k c.cache_map)) [
        | inl e' ↦ inl (e ∙ sym e')
        | inr (x, e') ↦ ground (arith, kept.spared k x d e')
      ]
    ]

run-IsValid :
    (n : ℕ) (calls : List (Str × ℕ × Call)) (c : PagedCache) → IsValid n c → IsValid n (run calls c)
unfolding run
run-IsValid n [] c v = v
run-IsValid n ((client, now, call) ∷ calls) c v =
    run-IsValid n calls (apply client now call c).1 (apply-Kept n client now c v call).valid

-- From the empty cache on, after any calls by any clients, the bitmap marks exactly the pages of
-- the entries, no page is held twice or lost, and the order of use has each key of the map once.
pub run-init-IsValid :
    (n : ℕ) (calls : List (Str × ℕ × Call)) → 0 < n → IsValid n (run calls (init n))
run-init-IsValid n calls h = run-IsValid n calls (init n) (init-IsValid n h)
