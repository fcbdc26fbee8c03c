-- ===== src/Kafka/Poison/Tests.antt =====
-- Books of the poison controller at concrete batches, with a sink that refuses its second call.
use agora_etl_plugins.Common.{◌+◌, ◌≡◌, ◌⊎◌, refl, true, List, [], ◌∷◌, some, nat_beq, not, length}
use agora_etl_plugins.Kafka.Poison.{
  Policy, Dlq, PoisonState, Record, returned, dlq_and_continue, dlq_and_fail_closed, single_sink,
  no_counts, capture_batch, write_each, handle_write_error,
}
use agora_etl_plugins.Kafka.Poison.Accounting.{capture_batch_accounts, capture_batch-written}

abbrev all_but_second : Dlq
all_but_second = record { accepts = λ n. not (nat_beq n 1); builds = λ r. true }

abbrev books : Policy → PoisonState
books policy = record {
  policy = policy;
  sink = some single_sink;
  dlq_write_count = 3;
  dlq_write_failure_count = 1;
  log_only_count = 0;
  fail_closed_count = 0;
  classification_counts = no_counts;
  calls = 0;
  written = [];
}

abbrev two_records : List Record
two_records = (("orders", 0), 4) ∷ (("orders", 0), 5) ∷ []

capture_batch_run :
    (capture_batch all_but_second two_records (books dlq_and_continue)).0.dlq_write_failure_count
    ≡ 3
unfolding capture_batch write_each handle_write_error
capture_batch_run = refl

capture_batch_accounts_example :
    let (s', signal) = capture_batch all_but_second two_records (books dlq_and_continue) in
    (s'.dlq_write_count + s'.dlq_write_failure_count ≡ 3 + 1 + length two_records)
    × ((signal ≡ returned) ⊎ (dlq_and_continue ≡ dlq_and_fail_closed))
capture_batch_accounts_example =
    capture_batch_accounts all_but_second two_records (books dlq_and_continue) single_sink refl refl

capture_one_run :
    (capture_batch all_but_second ((("orders", 0), 4) ∷ []) (books dlq_and_fail_closed)).1
    ≡ returned
unfolding capture_batch write_each handle_write_error
capture_one_run = refl

capture_batch-written_example :
    (capture_batch all_but_second ((("orders", 0), 4) ∷ []) (books dlq_and_fail_closed)).0.written
    ≡ (("orders", 0), 4) ∷ []
capture_batch-written_example =
    capture_batch-written all_but_second ((("orders", 0), 4) ∷ []) (books dlq_and_fail_closed)
      single_sink refl refl capture_one_run
