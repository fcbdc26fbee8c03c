-- ===== src/Kafka/Cursor/OffsetMap.antt =====
-- Committed offsets are one past the committable ones.
use mathlib.Core.Option
use agora_etl_plugins.Common.Dict
use agora_etl_plugins.Common.{◌+◌, ◌≡◌, pair_eq, nat_eq, string_eq, Eq}
use agora_etl_plugins.Kafka.Cursor.{TopicPartition, CursorState, build_commit_offsets}

-- The offset that is committed for a partition is one past its committable offset, and nothing
-- is committed for a partition that has none, if the client's objects for different partitions
-- are different.
pub get-build_commit_offsets {ℓ} :
    {K : Type ℓ} ⦃e : Eq K⦄ (build : TopicPartition → K)
    → ((a b : TopicPartition) → build a ≡ build b → a ≡ b)
    → (tp : TopicPartition) (s : CursorState)
    → Dict.get (build tp) (build_commit_offsets build s)
      ≡ Option.map (λ o. o + 1) (Dict.get tp s.committable_offsets)
unfolding build_commit_offsets
get-build_commit_offsets build injective tp s =
    Dict.get-map build injective _ tp s.committable_offsets
