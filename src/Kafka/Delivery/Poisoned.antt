-- ===== src/Kafka/Delivery/Poisoned.antt =====
-- kafka/sources/_delivery.py, records that cannot be deserialized, and `handle_partitions_revoked`
-- of _consumer_runtime.py, less the operator controls, which it also tells. `dlq` says which calls
-- of the dead-letter sink return.
use agora_etl_plugins.Common.{ℕ, ◌+◌, Bool, true, false, List, [], ◌∷◌, if◌then◌else◌, length}
use agora_etl_plugins.Kafka.Cursor.{
  TopicPartition, CursorState, is_empty, remember_processed_offset, remember_committable_offset,
  increment_pending_commit_count, drop_revoked,
}
use agora_etl_plugins.Kafka.Poison.{
  Dlq, Classification, PoisonState, Signal, returned, raised, Record, should_continue,
  observe_records, capture_batch, capture_record,
}
use agora_etl_plugins.Kafka.Delivery.{
  Source, on_cursor, on_delivery_progress, ◌▸◌, commit_if_needed, deliver,
}

-- The books of the poison controller, and whether the capture raised.
abbrev with_poison : Source → PoisonState × Signal → Source × Signal
with_poison s (p, signal) = (record s { poison = p }, signal)

unfoldable pub remember_all : List Record → CursorState → CursorState
unfolding remember_processed_offset remember_committable_offset
remember_all [] c = c
remember_all ((tp, o) ∷ rs) c =
    remember_all rs (remember_committable_offset tp o (remember_processed_offset tp o c))

module _ (accepts : ℕ → Bool) (dlq : Dlq) where
  -- `_continue_after_batch_failure`
  unfoldable pub continue_after_batch_failure : List Record → Source → Source × Signal
  unfolding remember_all increment_pending_commit_count
  continue_after_batch_failure rs s =
      let s' = on_delivery_progress (
        on_cursor (remember_all rs)
          (record s { record_drop_count = s.record_drop_count + length rs })) in
      if s.enable_auto_commit
      then (s', returned)
      else commit_if_needed accepts false
          (on_cursor (increment_pending_commit_count (length rs)) s')

  -- Once the record is captured: drop it, or end the stream.
  unfoldable pub after_single : Record → Source → Source × Signal
  unfolding should_continue
  after_single r s =
      if should_continue s.poison.policy
      then deliver accepts r (record s { record_drop_count = s.record_drop_count + 1 })
      else (s, raised)

  unfoldable pub after_batch : List Record → Source → Source × Signal
  unfolding should_continue continue_after_batch_failure
  after_batch rs s =
      if should_continue s.poison.policy then continue_after_batch_failure rs s else (s, raised)

  unfoldable pub handle_single_deserialize_error :
      Classification → Record → Source → Source × Signal
  unfolding after_single
  handle_single_deserialize_error class r s =
      let s' = record s { record_error_count = s.record_error_count + 1 } in
      with_poison s' (capture_record dlq r (observe_records class 1 s.poison)) ▸ after_single r

  -- `handle_batch_deserialize_error` and `handle_batch_deserializer_count_mismatch`
  unfoldable pub handle_batch_deserialize_error :
      Classification → List Record → Source → Source × Signal
  unfolding after_batch
  handle_batch_deserialize_error class rs s =
      let s' = record s {
        batch_deserialize_error_count = s.batch_deserialize_error_count + 1;
        record_error_count = s.record_error_count + length rs;
      } in
      with_poison s' (capture_batch dlq rs (observe_records class (length rs) s.poison))
      ▸ after_batch rs

  unfoldable pub handle_partitions_revoked : List TopicPartition → Source → Source × Signal
  unfolding drop_revoked
  handle_partitions_revoked partitions s = commit_if_needed accepts true s ▸ λ s'.
      (if is_empty partitions then s' else on_cursor (drop_revoked partitions) s', returned)
