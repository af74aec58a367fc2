-- ===== src/PagedCache/Branches.antt =====
-- What the methods do as soon as they have looked at the map.
use os_lab.Base.{ℕ, ◌≡◌, ◌≢◌, none, some, arith, Str, Str-discrete}
use os_lab.Keys.{remove_key}
use os_lab.Dict.{find, erase}
use os_lab.Pages.{deallocate_pages_linked}
use os_lab.PagedCache.{
  CacheEntry, PagedCache, success, key_exists, key_not_found, client_mismatch, add_key, update_key,
  get_key, delete_key, touch_entry,
}

module _ (key client : Str) (c : PagedCache) where
  module _ (absent : find Str-discrete key c.cache_map ≡ none) where
    pub update_absent :
        (value : Str) (now : ℕ) → update_key key value client now c ≡ (key_not_found, c)
    unfolding update_key
    update_absent value now = ground arith

    pub get_absent :
        (value : Str) (now : ℕ) → get_key key value client now c ≡ (key_not_found, value, c)
    unfolding get_key
    get_absent value now = ground arith

    pub delete_absent : delete_key key client c ≡ (key_not_found, c)
    unfolding delete_key
    delete_absent = ground arith

  module _ (e : CacheEntry) (found : find Str-discrete key c.cache_map ≡ some e) where
    pub add_found : (value : Str) (now : ℕ) → add_key key value client now c ≡ (key_exists, c)
    unfolding add_key
    add_found value now = ground arith

    module _ (other : e.client_id ≢ client) where
      pub update_foreign :
          (value : Str) (now : ℕ) → update_key key value client now c ≡ (client_mismatch, c)
      unfolding update_key
      update_foreign value now = ground arith

      pub get_foreign :
          (value : Str) (now : ℕ) → get_key key value client now c ≡ (client_mismatch, value, c)
      unfolding get_key
      get_foreign value now = ground arith

      pub delete_foreign : delete_key key client c ≡ (client_mismatch, c)
      unfolding delete_key
      delete_foreign = ground arith

    module _ (mine : e.client_id ≡ client) where
      pub get_own :
          (value : Str) (now : ℕ)
          → get_key key value client now c
            ≡ (success, e.value, touch_entry key (record e { last_access = now }) c)
      unfolding get_key
      get_own value now = ground arith

      pub delete_own : delete_key key client c ≡ (
        success,
        record {
          pages = deallocate_pages_linked e.memory_blocks c.pages;
          cache_map = erase Str-discrete key c.cache_map;
          lru_order = remove_key key c.lru_order;
        },
      )
      unfolding delete_key
      delete_own = ground arith
