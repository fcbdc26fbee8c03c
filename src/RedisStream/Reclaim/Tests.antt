-- ===== src/RedisStream/Reclaim/Tests.antt =====
-- A source that always finds messages to reclaim.
use agora_etl_plugins.Common.{◌≡◌, refl, true, false, some, [], ◌∷◌, ◌<◌, arith}
use agora_etl_plugins.Kafka.Poison.{returned}
use agora_etl_plugins.RedisStream.Reclaim.{
  Reader, Answers, response, entries, turns, turn, should_read_reclaimed_messages,
  read_reclaimed_messages, below, bounded_by, after_claim, after_read, read_entries, or_read,
  reclaim_or_read, follow,
}
use agora_etl_plugins.RedisStream.Reclaim.Fair.{turns-read}

abbrev reader : Reader
reader = record {
  connected = true;
  reclaim_idle_ms = some 1000;
  resume_pending = false;
  max_consecutive_reclaim_batches = some 2;
  consecutive_reclaim_batch_count = 1;
  reclaim_fairness_yield_count = 0;
  reclaimed_message_count = 0;
  reclaim_cursor = "0-0";
  read_call_count = 7;
}

abbrev busy : Answers
busy = record { claim = response "0-0" 5; read = entries 1 }

turns_run : (turns (busy ∷ busy ∷ busy ∷ []) reader).1 ≡ returned
unfolding turns turn should_read_reclaimed_messages read_reclaimed_messages below bounded_by
    after_claim after_read read_entries or_read reclaim_or_read follow
turns_run = refl

turns-read_example : 7 < (turns (busy ∷ busy ∷ busy ∷ []) reader).0.read_call_count
turns-read_example =
    turns-read 2 (busy ∷ busy ∷ busy ∷ []) reader refl refl refl (omega arith) (omega arith)
      turns_run
