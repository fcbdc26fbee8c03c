-- ===== src/Kafka/Delivery/Tests.antt =====
-- Deliveries at concrete records.
use agora_etl_plugins.Common.{
  ℕ, ◌≡◌, refl, Bool, true, false, not, ◌&&◌, List, [], ◌∷◌, ◌++◌, none, All, if◌then◌else◌,
}
use agora_etl_plugins.Common.{string_eq, nat_eq, pair_eq}
use agora_etl_plugins.Kafka.Cursor.{TopicPartition, init}
use agora_etl_plugins.Kafka.Poison.{
  Dlq, returned, raised, log_and_continue, no_counts, Classification,
}
use agora_etl_plugins.Kafka.Delivery.{Source, request, calls_ack, commit_if_needed, emit_record}
use agora_etl_plugins.Kafka.Delivery.Commit.{is_due, commit_if_needed_lem}
use agora_etl_plugins.Kafka.Delivery.Emission.{emit_record-acks}
use agora_etl_plugins.Kafka.Delivery.History.{
  Event, emits, fails_batch, revokes, run, commits-released,
}
use agora_etl_plugins.Kafka.Delivery.Safety.{Justified}

abbrev always : ℕ → Bool
always n = true

abbrev dlq : Dlq
dlq = record { accepts = always; builds = λ r. true }

abbrev consumer : Source
consumer = record {
  cursor = init [];
  enable_auto_commit = false;
  commit_every = 2;
  connected = true;
  poison = record {
    policy = log_and_continue;
    sink = none;
    dlq_write_count = 0;
    dlq_write_failure_count = 0;
    log_only_count = 0;
    fail_closed_count = 0;
    classification_counts = no_counts;
    calls = 0;
    written = [];
  };
  record_error_count = 0;
  record_drop_count = 0;
  batch_deserialize_error_count = 0;
  active = none;
  progress = 0;
  commits_recorded = 0;
  attempts = 0;
  commits = [];
}

abbrev orders : TopicPartition
orders = ("orders", 0)

abbrev history : List Event
history =
    emits (orders, 4) (calls_ack ∷ []) false
    ∷ fails_batch Classification.deserialization ((orders, 5) ∷ (orders, 6) ∷ [])
    ∷ emits (orders, 7) [] true
    ∷ revokes (orders ∷ [])
    ∷ []

commits-released_example :
    All (Justified (run always dlq history consumer).1) (run always dlq history consumer).0.commits
commits-released_example = commits-released always dlq history consumer refl refl refl

commit_if_needed_lem_example :
    let (s', signal) = commit_if_needed always true consumer in
    let taken = is_due true consumer && always 0 in
    (s'.cursor.committable_offsets ≡ consumer.cursor.committable_offsets)
    × (s'.commits
        ≡ (if taken then consumer.commits ++ (request consumer.cursor ∷ []) else consumer.commits))
    × (s'.cursor.pending_commit_count ≡ (if taken then 0 else consumer.cursor.pending_commit_count))
    × (signal ≡ (if is_due true consumer && not (always 0) then raised else returned))
commit_if_needed_lem_example = commit_if_needed_lem always true consumer

emit_record-acks_example :
    emit_record always (orders, 4) (calls_ack ∷ calls_ack ∷ []) false consumer
    ≡ emit_record always (orders, 4) [] false consumer
emit_record-acks_example = emit_record-acks always 2 (orders, 4) consumer
