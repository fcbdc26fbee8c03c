-- ===== src/Kafka/Poison.antt =====
-- kafka/sources/_poison.py and _poison_controller.py: what happens to records that cannot be
-- deserialized. The dead-letter sink is foreign code: it is asked `calls` times, and `accepts`
-- says which of these calls return. `written` is what it has taken. `builds` says for which records
-- `build_poison_dlq_record` returns: it raises where the metadata has no numbers.
pub mod Accounting
mod Tests
use agora_etl_plugins.Common.{
  ℕ, zero, suc, ◌+◌, Bool, true, false, ◌&&◌, List, [], ◌∷◌, ◌++◌, Option, none, some,
  if◌then◌else◌, length,
}
use agora_etl_plugins.Kafka.Cursor.{TopicPartition}

pub data Policy : Type 0 where
  fail_closed log_and_continue dlq_and_continue dlq_and_fail_closed : Policy

pub data Classification : Type 0 where
  deserialization schema_evolution schema_validation : Classification
  schema_registry_binding_mismatch unknown : Classification

-- The two shapes of a sink: with `write_batch`, or with `write` alone.
pub data Sink : Type 0 where
  batch_sink single_sink : Sink

-- `SourceRecordFailurePolicy` of the core
pub data FailurePolicy : Type 0 where
  raise_error log_error : FailurePolicy

-- A record is named by its place in the log.
abbrev pub Record : Type 0
Record = TopicPartition × ℕ

pub record Counts : Type 0 where
  pub deserialization : ℕ
  pub schema_evolution : ℕ
  pub schema_validation : ℕ
  pub schema_registry_binding_mismatch : ℕ
  pub unknown : ℕ

abbrev pub no_counts : Counts
no_counts = record {
  deserialization = 0;
  schema_evolution = 0;
  schema_validation = 0;
  schema_registry_binding_mismatch = 0;
  unknown = 0;
}

pub record PoisonState : Type 0 where
  pub policy : Policy
  pub sink : Option Sink
  pub dlq_write_count : ℕ
  pub dlq_write_failure_count : ℕ
  pub log_only_count : ℕ
  pub fail_closed_count : ℕ
  pub classification_counts : Counts
  pub calls : ℕ
  pub written : List Record

-- Whether the call returned or raised.
pub data Signal : Type 0 where
  returned raised : Signal

unfoldable pub should_continue : Policy → Bool
should_continue log_and_continue = true
should_continue dlq_and_continue = true
should_continue fail_closed = false
should_continue dlq_and_fail_closed = false

-- `policy` is None, or a policy that its constructor accepts.
unfoldable pub resolve_policy : Option Policy → FailurePolicy → Policy
resolve_policy none log_error = log_and_continue
resolve_policy none raise_error = fail_closed
resolve_policy (some p) _ = p

pub count_class : Classification → ℕ → Counts → Counts
count_class Classification.deserialization n c = record c {
  deserialization = c.deserialization + n;
}
count_class Classification.schema_evolution n c = record c {
  schema_evolution = c.schema_evolution + n;
}
count_class Classification.schema_validation n c = record c {
  schema_validation = c.schema_validation + n;
}
count_class Classification.schema_registry_binding_mismatch n c = record c {
  schema_registry_binding_mismatch = c.schema_registry_binding_mismatch + n;
}
count_class Classification.unknown n c = record c { unknown = c.unknown + n }

count_policy : Policy → ℕ → PoisonState → PoisonState
count_policy log_and_continue n s = record s { log_only_count = s.log_only_count + n }
count_policy fail_closed n s = record s { fail_closed_count = s.fail_closed_count + n }
count_policy dlq_and_fail_closed n s = record s { fail_closed_count = s.fail_closed_count + n }
count_policy dlq_and_continue n s = s

unfoldable pub observe_records : Classification → ℕ → PoisonState → PoisonState
unfolding count_policy count_class
observe_records class count s =
    count_policy s.policy count
      (record s { classification_counts = count_class class count s.classification_counts })

abbrev uses_dlq : Policy → Bool
uses_dlq dlq_and_continue = true
uses_dlq dlq_and_fail_closed = true
uses_dlq _ = false

-- `raise exc` for the policy that closes on a failed write, else the failure is only counted
pub handle_write_error : ℕ → PoisonState → PoisonState × Signal
handle_write_error count s = (
  record s { dlq_write_failure_count = s.dlq_write_failure_count + count },
  elim s.policy [ dlq_and_fail_closed ↦ raised | _ ↦ returned ],
)

-- The calls of the dead-letter sink, and of the builder of its records.
pub record Dlq : Type 0 where
  pub accepts : ℕ → Bool
  pub builds : Record → Bool

abbrev pub builds_all : Dlq → List Record → Bool
builds_all dlq [] = true
builds_all dlq (r ∷ rs) = dlq.builds r && builds_all dlq rs

module _ (dlq : Dlq) where
  open dlq use {accepts, builds}

  -- `for record in records: await sink.write(record)`, until a write raises
  write_each : List Record → PoisonState → PoisonState × Signal
  write_each [] s = (s, returned)
  write_each (r ∷ rs) s =
      let s' = record s { calls = s.calls + 1 } in
      let rest = write_each rs (record s' { written = s.written ++ (r ∷ []) }) in
      if accepts s.calls then rest else (s', raised)

  write_to : Sink → List Record → PoisonState → PoisonState × Signal
  unfolding write_each
  write_to single_sink rs s = write_each rs s
  write_to batch_sink rs s =
      let s' = record s { calls = s.calls + 1 } in
      if accepts s.calls then (record s' { written = s.written ++ rs }, returned) else (s', raised)

  after_write : ℕ → PoisonState × Signal → PoisonState × Signal
  unfolding handle_write_error
  after_write n (s, returned) = (record s { dlq_write_count = s.dlq_write_count + n }, returned)
  after_write n (s, raised) = handle_write_error n s

  -- All records are built before the `try`: where that raises, so does the capture.
  capture_with : Option Sink → List Record → PoisonState → PoisonState × Signal
  unfolding after_write write_to
  capture_with none rs s = (s, returned)
  capture_with (some sink) rs s =
      if builds_all dlq rs then after_write (length rs) (write_to sink rs s) else (s, raised)

  unfoldable pub capture_batch : List Record → PoisonState → PoisonState × Signal
  unfolding capture_with
  capture_batch rs s = if uses_dlq s.policy then capture_with s.sink rs s else (s, returned)

  -- One record is built and goes to `sink.write`, whatever the shape of the sink, both in the `try`.
  write_one : Record → PoisonState → PoisonState × Signal
  write_one r s =
      let s' = record s { calls = s.calls + 1 } in
      let written : PoisonState × Signal =
        (record s' { written = s.written ++ (r ∷ []) }, returned) in
      if builds r then (if accepts s.calls then written else (s', raised)) else (s, raised)

  capture_one : Option Sink → Record → PoisonState → PoisonState × Signal
  unfolding after_write write_one
  capture_one none r s = (s, returned)
  capture_one (some sink) r s = after_write 1 (write_one r s)

  unfoldable pub capture_record : Record → PoisonState → PoisonState × Signal
  unfolding capture_one
  capture_record r s = if uses_dlq s.policy then capture_one s.sink r s else (s, returned)
