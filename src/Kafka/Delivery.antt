-- ===== src/Kafka/Delivery.antt =====
-- kafka/sources/_commit_runtime.py, _delivery.py, and `_emit_record` of _stream_runtime.py and
-- `handle_partitions_revoked` of _consumer_runtime.py: how records that have been handed out become
-- committed offsets. The broker is foreign code: commits are numbered, and `accepts` says which
-- of them return. `commits` is what it has taken.
pub mod Poisoned
pub mod Commit
pub mod Safety
pub mod Emission
pub mod Dropped
pub mod History
mod Tests
use agora_etl_plugins.Common.Dict
use agora_etl_plugins.Common.Dict.{Dict}
use agora_etl_plugins.Common.{
  ℕ, zero, suc, ◌+◌, ◌-◌, Bool, true, false, not, ◌&&◌, List, [], ◌∷◌, ◌++◌, map, Option, none,
  some, if◌then◌else◌, length, ltb, leb,
}
use agora_etl_plugins.Kafka.Cursor.{
  TopicPartition, Offsets, CursorState, is_empty, on_change, mark_delivered_message,
  mark_transaction_committed, remember_processed_offset, remember_committable_offset,
  increment_pending_commit_count, clear_pending_commit_count, build_commit_offsets, drop_revoked,
}
use agora_etl_plugins.Kafka.Poison.{
  Policy, PoisonState, Classification, Signal, returned, raised, Record, should_continue,
  observe_records, capture_batch, capture_record,
}

-- `consumer.commit(offsets=…)`, and `consumer.commit()`, which commits wherever the consumer is.
-- The offsets are those of `build_commit_offsets`.
pub data Request : Type 0 where
  offsets : Offsets → Request
  positions : Request

pub record Source : Type 0 where
  pub cursor : CursorState
  pub enable_auto_commit : Bool
  pub commit_every : ℕ
  pub connected : Bool
  pub poison : PoisonState
  pub record_error_count : ℕ
  pub record_drop_count : ℕ
  pub batch_deserialize_error_count : ℕ
  pub active : Option Record
  pub progress : ℕ
  pub commits_recorded : ℕ
  pub attempts : ℕ
  pub commits : List Request

-- `on_delivery_progress`, `on_commit_recorded` and `on_state_changed`
abbrev on_delivery_progress : Source → Source
on_delivery_progress s = record s { progress = s.progress + 1 }

abbrev on_commit_recorded : Source → Source
on_commit_recorded s = record s { commits_recorded = s.commits_recorded + 1 }

abbrev on_cursor : (CursorState → CursorState) → Source → Source
on_cursor f s = record s { cursor = f s.cursor }

-- What a statement that may raise is followed by.
infixl 5 ◌▸◌
abbrev pub ◌▸◌ : Source × Signal → (Source → Source × Signal) → Source × Signal
(s, returned) ▸ k = k s
(s, raised) ▸ k = (s, raised)

abbrev pub request : CursorState → Request
request c =
    let built = build_commit_offsets (λ tp. tp) c in
    if is_empty built then positions else offsets built

-- The closures of one delivery share their record and this flag.
pub record Delivery : Type 0 where
  pub place : Record
  pub acknowledged : Bool

-- What the pipeline does with a record that is out.
pub data Hook : Type 0 where
  calls_ack calls_committed : Hook

module _ (accepts : ℕ → Bool) where
  pub send_commit : Source → Source × Signal
  unfolding build_commit_offsets clear_pending_commit_count
  send_commit s =
      let s' = record s { attempts = s.attempts + 1 } in
      if accepts s.attempts
      then (
        on_commit_recorded (
            on_cursor clear_pending_commit_count
              (record s' { commits = s.commits ++ (request s.cursor ∷ []) })),
        returned,
      )
      else (s', raised)

  pub commit_if_needed : Bool → Source → Source × Signal
  unfolding send_commit
  commit_if_needed force s =
      if not s.connected
      then (s, returned)
      else if s.enable_auto_commit
      then (s, returned)
      else if leb s.cursor.pending_commit_count 0
      then (s, returned)
      else if not force && ltb s.cursor.pending_commit_count s.commit_every
      then (s, returned)
      else send_commit s

  pub mark_emitted_offset : Record → Source → Source
  unfolding remember_processed_offset
  mark_emitted_offset (tp, o) s =
      on_delivery_progress (on_cursor (remember_processed_offset tp o) s)

  pub mark_delivered : Record → Source → Source
  unfolding mark_delivered_message
  mark_delivered (tp, o) s =
      on_delivery_progress (on_cursor (mark_delivered_message tp o s.enable_auto_commit) s)

  -- The body of `_ack`, and `_acknowledge_dropped_record`.
  pub deliver : Record → Source → Source × Signal
  unfolding mark_delivered
  deliver r s =
      let s' = mark_delivered r s in
      if s.enable_auto_commit then (s', returned) else commit_if_needed false s'

  pub start_delivery : Record → Source → Delivery × Source
  start_delivery r s = (record { place = r; acknowledged = false }, record s { active = some r })

  pub clear_active_delivery : Source → Source
  clear_active_delivery s = record s { active = none }

  -- The `_ack` closure.
  pub ack : Delivery → Source → Delivery × Source × Signal
  unfolding deliver
  ack d s =
      let (s', signal) = deliver d.place s in
      if d.acknowledged then (d, s, returned) else (record d { acknowledged = true }, s', signal)

  -- The `_committed` closure.
  pub committed : Delivery → Source → Delivery × Source × Signal
  unfolding mark_transaction_committed
  committed d s = (
    record d { acknowledged = true },
    on_commit_recorded (on_cursor (mark_transaction_committed d.place.0 d.place.1) s),
    returned,
  )

  pub call_hook : Hook → Delivery → Source → Delivery × Source × Signal
  unfolding ack committed
  call_hook calls_ack d s = ack d s
  call_hook calls_committed d s = committed d s

  -- The hooks that are called while the record is out. The pipeline calls them, which is other code:
  -- the first that raises ends it.
  pub call_hooks : List Hook → Delivery → Source → Delivery × Source × Signal
  unfolding call_hook
  call_hooks [] d s = (d, s, returned)
  call_hooks (h ∷ hs) d s =
      let (d', s', signal) = call_hook h d s in
      elim signal [ returned ↦ call_hooks hs d' s' | raised ↦ (d', s', raised) ]

  -- After the record: the hooks are cleared; if it was handled and not acknowledged, it is now.
  pub finish : Bool → Delivery × Source × Signal → Source × Signal
  unfolding clear_active_delivery
  finish failed (d, s, raised) = (clear_active_delivery s, raised)
  finish true (d, s, returned) = (clear_active_delivery s, raised)
  finish false (d, s, returned) =
      let s' = clear_active_delivery s in
      if d.acknowledged then (s', returned) else ((ack d s').1, (ack d s').2)

  -- `_emit_record`: `failed` says whether the consumer of the stream ended it at this record.
  pub emit_record : Record → List Hook → Bool → Source → Source × Signal
  unfolding mark_emitted_offset start_delivery call_hooks finish
  emit_record r hooks failed s =
      let (d, s') = start_delivery r (mark_emitted_offset r s) in
      finish failed (call_hooks hooks d s')
