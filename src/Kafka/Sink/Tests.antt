-- ===== src/Kafka/Sink/Tests.antt =====
-- Batches at a producer that counts its sends, and confirms each of them.
use agora_etl_plugins.Common.{ℕ, ◌+◌, ◌≡◌, refl, true, false, none, some, [], ◌∷◌}
use agora_etl_plugins.Kafka.Poison.{returned}
use agora_etl_plugins.Kafka.Sink.{
  Sink, Calls, and_then, after_await, confirm, settled, await_first, await_oldest_ack, drain_each,
  drain_pending_acks, after_send, send_message, send_all, enqueue_send, enqueue_all, serialize_all,
  send_values, write_batch_unwrapped, call_method, begin_transaction, commit_with,
  commit_transaction, leave, transaction, write_batch,
}
use agora_etl_plugins.Kafka.Sink.Batches.{IsTransaction, write_batch-IsCommitted}
use agora_etl_plugins.Kafka.Sink.Confirmed.{IsSent, write_batch_unwrapped-IsSent}

abbrev calls : Calls ℕ ℕ ℕ ℕ ℕ ℕ
calls = record {
  send_with_retry = λ m s. (s + 1, some s);
  await_delivery = λ d s. (s, none);
  should_retry = λ e. false;
  send_and_confirm = λ m s. (s, false);
  publish_message_for = λ r. none;
  serialize = λ r. some r;
  message_of = λ r v. some v;
  has_message_fn = false;
  begin_method = some (λ s. (s + 100, true));
  commit_method = some (λ s. (s + 1000, true));
  abort_method = some (λ s. (s, true));
  producer_flush = λ s. (s, true);
}

abbrev producing : Sink ℕ ℕ
producing = record {
  opened = true;
  max_pending_acks = 2;
  transaction_per_batch = true;
  in_transaction = false;
  pending_acks = [];
  confirmed = [];
}

batch_run : (write_batch calls (7 ∷ 8 ∷ 9 ∷ []) producing 0).2 ≡ returned
unfolding and_then after_await confirm settled await_first await_oldest_ack drain_each
    drain_pending_acks after_send send_message send_all enqueue_send enqueue_all serialize_all
    send_values write_batch_unwrapped call_method begin_transaction commit_with commit_transaction
    leave transaction write_batch
batch_run = refl

write_batch-IsCommitted_example :
    IsTransaction calls
      (7 ∷ 8 ∷ 9 ∷ [])
      producing
      0
      (write_batch calls (7 ∷ 8 ∷ 9 ∷ []) producing 0)
write_batch-IsCommitted_example =
    write_batch-IsCommitted calls (7 ∷ 8 ∷ 9 ∷ []) producing 0 refl refl batch_run

write_batch_unwrapped-IsSent_example :
    IsSent calls
      (7 ∷ 8 ∷ 9 ∷ [])
      producing
      (write_batch_unwrapped calls (7 ∷ 8 ∷ 9 ∷ []) producing 0)
unfolding serialize_all
write_batch_unwrapped-IsSent_example =
    write_batch_unwrapped-IsSent calls (7 ∷ 8 ∷ 9 ∷ []) producing 0
