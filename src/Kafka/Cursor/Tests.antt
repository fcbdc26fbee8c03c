-- ===== src/Kafka/Cursor/Tests.antt =====
-- Runs of the cursor, and its theorems at concrete inputs.
use agora_etl_plugins.Common.Dict
use agora_etl_plugins.Common.{
  ◌≡◌, refl, false, List, [], ◌∷◌, none, some, string_eq, nat_eq, pair_eq, if◌then◌else◌,
}
use agora_etl_plugins.Common.Sort.{sort, insert, last}
use agora_etl_plugins.Kafka.Cursor.Checkpoints.{
  Call, perform_all, fresh_checkpoint, current_checkpoint-eq-fresh, remembers_processed,
  marks_delivered, asks_checkpoint,
}
use agora_etl_plugins.Kafka.Cursor.Revocation.{drop_revoked_lem}
use agora_etl_plugins.Kafka.Cursor.{
  TopicPartition, CursorState, init, drop_revoked, contains, current_checkpoint, sorted_items,
  drop_keys, last_seen_after,
}

abbrev orders_0 : TopicPartition
orders_0 = ("orders", 0)

abbrev orders_1 : TopicPartition
orders_1 = ("orders", 1)

abbrev history : List Call
history = marks_delivered orders_1 7 false ∷ asks_checkpoint ∷ remembers_processed orders_0 3 ∷ []

abbrev tracked : CursorState
tracked = record (init []) {
  pending_commit_count = 2;
  processed_offsets = (orders_1, 7) ∷ (orders_0, 3) ∷ [];
  committable_offsets = (orders_1, 7) ∷ (orders_0, 2) ∷ [];
  last_seen = some (orders_0, 3);
}

current_checkpoint-eq-fresh_example :
    (current_checkpoint (perform_all history (init []))).0
    ≡ fresh_checkpoint (perform_all history (init []))
current_checkpoint-eq-fresh_example = current_checkpoint-eq-fresh [] history

drop_revoked_run : (drop_revoked (orders_0 ∷ []) tracked).last_seen ≡ some (orders_1, 7)
unfolding drop_revoked drop_keys last_seen_after contains sorted_items sort insert last Dict.remove
drop_revoked_run = refl

drop_revoked_lem_example :
    let s' = drop_revoked (orders_0 ∷ []) tracked in
    (Dict.get orders_1 s'.processed_offsets ≡ (
      if contains orders_1 (orders_0 ∷ [])
      then none
      else Dict.get orders_1 tracked.processed_offsets))
    × (Dict.get orders_1 s'.committable_offsets ≡ (
        if contains orders_1 (orders_0 ∷ [])
        then none
        else Dict.get orders_1 tracked.committable_offsets))
drop_revoked_lem_example = drop_revoked_lem (orders_0 ∷ []) tracked orders_1
