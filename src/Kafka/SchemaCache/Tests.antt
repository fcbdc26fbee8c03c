-- ===== src/Kafka/SchemaCache/Tests.antt =====
-- A full cache of two schemas.
use agora_etl_plugins.Common.Dict
use agora_etl_plugins.Common.{ℕ, ◌≤◌, ◌≡◌, refl, String, [], ◌∷◌, ◌++◌, length, arith, string_eq}
use agora_etl_plugins.Kafka.SchemaCache.{lru_cache_put}
use agora_etl_plugins.Kafka.SchemaCache.Recency.{others, lru_cache_put-others}

abbrev schemas : Dict.Dict String ℕ
schemas = ("a", 1) ∷ ("b", 2) ∷ []

apart_schemas : Dict.Distinct schemas
unfolding Dict.get
apart_schemas = (refl, (refl, tt))

lru_cache_put-others_example :
    (lru_cache_put "c" 3 2 schemas ≡ others "c" 2 schemas (Dict.get "c" schemas) ++ (("c", 3) ∷ []))
    × (length (lru_cache_put "c" 3 2 schemas) ≤ 2)
lru_cache_put-others_example =
    lru_cache_put-others "c" 3 2 schemas apart_schemas (omega arith) (omega arith)
