-- ===== src/PagedCache/Foreign.antt =====
-- What a call of `PagedCache` leaves of the entries of other clients.
use os_lab.Base.{
  ℕ, ◌≡◌, ◌≢◌, ◌⊎◌, inl, inr, refl, sym, ◌∙◌, some, some-injective, Str, Str-discrete, [], arith,
  Option-cases, ap,
}
use os_lab.Dict.{Dict, find, put, find-put, find-erase_self}
use os_lab.PagedCache.{
  CacheEntry, PagedCache, OperationResult, success, key_exists, key_not_found, no_space,
  client_mismatch, touch_entry, add_key, update_key, get_key, delete_key,
}
use os_lab.PagedCache.Valid.{IsValid}
use os_lab.PagedCache.Add.{Stores, add_key_absent}
use os_lab.PagedCache.Update.{update_key_own}
use os_lab.PagedCache.Branches.{
  add_found, update_absent, update_foreign, get_absent, get_foreign, get_own, delete_own,
  delete_absent, delete_foreign,
}
use os_lab.PagedCache.Steps.{Call, add, update, get, delete, call_key, apply, apply-Kept}

success_or_not : (r : OperationResult) → (r ≡ success) ⊎ (r ≢ success)
success_or_not success = inl refl
success_or_not key_exists = inr (λ e. cc)
success_or_not key_not_found = inr (λ e. cc)
success_or_not no_space = inr (λ e. cc)
success_or_not client_mismatch = inr (λ e. cc)

-- Foreign entries of the map `m'` stood in `m` as they are.
abbrev pub NoForgery : Str → Str → Dict Str CacheEntry → Dict Str CacheEntry → Type 0
NoForgery client k m m' =
    (e : CacheEntry)
    → find Str-discrete k m' ≡ some e
    → e.client_id ≢ client
    → find Str-discrete k m ≡ some e

Stores-NoForgery :
    (k value client : Str) (m m' : Dict Str CacheEntry)
    → Stores k value client m'
    → NoForgery client k m m'
Stores-NoForgery k value client m m' (x, found, _, owner) e h other =
    absurd
      (other (ap (λ (y : CacheEntry). y.client_id) (some-injective e x (sym h ∙ found)) ∙ owner))

module _ (n : ℕ) (client : Str) (now : ℕ) (c : PagedCache) (v : IsValid n c) where
  add-NoForgery :
      (key value : Str)
      → NoForgery client key c.cache_map (add_key key value client now c).1.cache_map
  add-NoForgery key value = elim (Option-cases (find Str-discrete key c.cache_map)) [
    | inr (x, e) ↦ rw (add_found key client c x e value now) (λ y h _. h)
    | inl fresh ↦
        let a = add_key_absent n key value client now c v fresh in
        let m' = (add_key key value client now c).1.cache_map in
        elim (success_or_not (add_key key value client now c).0) [
          | inl s ↦ Stores-NoForgery key value client c.cache_map m' (a.stored s)
          | inr f ↦ λ y h _. absurd (ground (arith, a.absent f))
        ]
  ]

  update-NoForgery :
      (key value : Str)
      → NoForgery client key c.cache_map (update_key key value client now c).1.cache_map
  update-NoForgery key value = elim (Option-cases (find Str-discrete key c.cache_map)) [
    | inl e ↦ rw (update_absent key client c e value now) (λ y h _. h)
    | inr (x, e) ↦ elim (Str-discrete x.client_id client) [
      | no other ↦ rw (update_foreign key client c x e other value now) (λ y h _. h)
      | yes mine ↦
          let a = update_key_own n key value client now c v x e mine in
          let m' = (update_key key value client now c).1.cache_map in
          elim (success_or_not (update_key key value client now c).0) [
            | inl s ↦ Stores-NoForgery key value client c.cache_map m' (a.stored s)
            | inr f ↦ Stores-NoForgery key x.value client c.cache_map m' (a.refused f)
          ]
    ]
  ]

  get-NoForgery :
      (key : Str) → NoForgery client key c.cache_map (get_key key [] client now c).2.cache_map
  get-NoForgery key = elim (Option-cases (find Str-discrete key c.cache_map)) [
    | inl e ↦ rw (get_absent key client c e [] now) (λ y h _. h)
    | inr (x, e) ↦ elim (Str-discrete x.client_id client) [
      | no other ↦ rw (get_foreign key client c x e other [] now) (λ y h _. h)
      | yes mine ↦
          let x' : CacheEntry = record x { last_access = now } in
          unfold touch_entry in
          rw (get_own key client c x e mine [] now) (
            Stores-NoForgery key x.value client c.cache_map (put Str-discrete key x' c.cache_map)
              (x', ground (arith, find-put Str-discrete key key x' c.cache_map), refl, mine))
    ]
  ]

  delete-NoForgery :
      (key : Str) → NoForgery client key c.cache_map (delete_key key client c).1.cache_map
  delete-NoForgery key = elim (Option-cases (find Str-discrete key c.cache_map)) [
    | inl e ↦ rw (delete_absent key client c e) (λ y h _. h)
    | inr (x, e) ↦ elim (Str-discrete x.client_id client) [
      | no other ↦ rw (delete_foreign key client c x e other) (λ y h _. h)
      | yes mine ↦ rw (delete_own key client c x e mine) (λ y h _.
          absurd (ground (arith, find-erase_self Str-discrete key c.cache_map v.distinct)))
    ]
  ]

  own-NoForgery :
      (call : Call)
      → NoForgery client (call_key call) c.cache_map (apply client now call c).1.cache_map
  unfolding apply
  own-NoForgery (add key value) = add-NoForgery key value
  own-NoForgery (update key value) = update-NoForgery key value
  own-NoForgery (get key) = get-NoForgery key
  own-NoForgery (delete key) = delete-NoForgery key

  -- What a call leaves of another client's entries is as it was, at each key.
  pub apply-NoForgery :
      (call : Call) (k : Str) → NoForgery client k c.cache_map (apply client now call c).1.cache_map
  apply-NoForgery call k = elim (Str-discrete k (call_key call)) [
    | yes same ↦ rw same (own-NoForgery call)
    | no other ↦ λ e h _. (apply-Kept n client now c v call).others.same k e other h
  ]
