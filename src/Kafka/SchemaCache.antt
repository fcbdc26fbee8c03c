-- ===== src/Kafka/SchemaCache.antt =====
-- kafka/_schema_registry_cache.py: a cache of schemas that drops the entry that was used least
-- recently. An `OrderedDict` is the list of its entries, the oldest first. No schema is `None`.
pub mod Recency
mod Tests
use agora_etl_plugins.Common.Dict
use agora_etl_plugins.Common.Dict.{Dict}
use agora_etl_plugins.Common.{
  ℕ, zero, suc, ◌+◌, Bool, true, false, Option, none, some, List, [], ◌∷◌, ◌++◌, if◌then◌else◌, ltb,
  length, Eq, Result, ok, raise, String,
}

-- `raise ValueError` on a bound below 1; bounds are not negative here.
unfoldable pub coerce_schema_cache_max_entries : ℕ → Result String ℕ
coerce_schema_cache_max_entries zero = raise "schema_cache_max_entries must be >= 1."
coerce_schema_cache_max_entries (suc n) = ok (suc n)

module _ {K V : Type 0} ⦃e : Eq K⦄ where
  -- `cache.move_to_end(key)` of a key whose value is given.
  unfoldable pub move_to_end : K → V → Dict K V → Dict K V
  move_to_end key value cache = Dict.remove key cache ++ ((key, value) ∷ [])

  touch : K → Option V → Dict K V → Option V × Dict K V
  unfolding move_to_end
  touch key none cache = (none, cache)
  touch key (some value) cache = (some value, move_to_end key value cache)

  unfoldable pub lru_cache_get : K → Dict K V → Option V × Dict K V
  unfolding touch
  lru_cache_get key cache = touch key (Dict.get key cache) cache

  -- `while len(cache) > max_entries: cache.popitem(last=False)`
  unfoldable pub evict : ℕ → Dict K V → Dict K V
  evict max_entries [] = []
  evict max_entries (entry ∷ cache) =
      let rest = evict max_entries cache in
      if ltb max_entries (length (entry ∷ cache)) then rest else entry ∷ cache

  unfoldable pub lru_cache_put : K → V → ℕ → Dict K V → Dict K V
  unfolding move_to_end evict
  lru_cache_put key value max_entries cache =
      evict max_entries (move_to_end key value (Dict.put key value cache))
