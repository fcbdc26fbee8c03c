-- ===== src/Kafka/Scan/Tests.antt =====
-- A scan of three messages of two keys by a consumer that is given its partition after one poll. The
-- records are numbers, and a message is the entry that is decoded from it.
use agora_etl_plugins.Common.{
  ℕ, zero, suc, ◌+◌, ◌-◌, ◌≤◌, ◌<◌, ◌≢◌, subst, String, true, Option, none, some, List, [], ◌∷◌,
  arith, string_eq, if◌then◌else◌, leb,
}
use agora_etl_plugins.Kafka.Compaction.Tables.{dict_table, codec, Rows}
use agora_etl_plugins.Kafka.Scan.{running, iter_records, non_empty}
use agora_etl_plugins.Kafka.Scan.Assignment.{Setup, Source, Client}
use agora_etl_plugins.Kafka.Scan.Yielded.{IsYield, iter_records-IsYield}
use agora_etl_plugins.Kafka.Scan.Ended.{Drains, iter_records-ends}

abbrev Message : Type 0
Message = String × String × Option ℕ

abbrev polls : ℕ → Option (ℕ × List (List Message))
polls zero = some (1, (("upsert", "a", some 7) ∷ []) ∷ [])
polls (suc zero) = some (2, (("upsert", "b", some 8) ∷ ("delete", "a", none) ∷ []) ∷ [])
polls n = some (n, [])

abbrev assigned : ℕ → List ℕ
assigned zero = []
assigned (suc n) = 0 ∷ []

abbrev client : Client ℕ Message ℕ
client = record {
  assignment = assigned;
  getmany = polls;
  seek = none;
  end_offsets = λ ps s. some ((0, some 2) ∷ []);
  position = some (λ p s. some (if leb 2 s then 2 else 0));
}

abbrev setup : Setup ℕ Message ℕ ℕ ℕ (Rows ℕ) ℕ
setup = record {
  codec = codec;
  table = dict_table;
  client = client;
  place_leb = λ p q. true;
  decode_envelope = λ m. some m;
  pipeline_of = λ r. "orders";
  stage_of = λ r. "sink";
}

abbrev source : Source ℕ Message
source = record {
  scan_idle_polls = 2;
  start_offsets = [];
  stop_at_highwater = true;
  pipeline_id = some "orders";
  stage = none;
  limit = some 5;
  compaction_spill_threshold = none;
  assignment_prefetch_batches = [];
  scan_count = 0;
  scanned_message_count = 0;
  delete_event_count = 0;
  upsert_event_count = 0;
  live_record_count = 0;
  matched_record_count = 0;
  highwater_stop_count = 0;
  start_offset_seek_count = 0;
}

iter_records-IsYield_example : IsYield setup source 0 (iter_records setup 9 source 0)
iter_records-IsYield_example = iter_records-IsYield setup 9 source 0 (omega arith)

abbrev to_come : ℕ → ℕ
to_come n = 2 - n

tail_of : Option (ℕ × List (List Message)) → ℕ
tail_of none = 0
tail_of (some (n, batches)) = to_come n + (if non_empty batches then 1 else 0)

polls-drain : (s : ℕ) → tail_of (polls s) ≤ to_come s
unfolding tail_of non_empty
polls-drain zero = omega arith
polls-drain (suc zero) = omega arith
polls-drain (suc (suc n)) = omega arith

drains : Drains setup
unfolding tail_of
drains = record {
  pending = to_come;
  polled_lem = λ s s' batches e. subst (λ o. tail_of o ≤ to_come s) e (polls-drain s);
}

iter_records-ends_example :
    (n : ℕ) × ((fuel : ℕ) → n < fuel → iter_records setup fuel source 0 ≢ running)
iter_records-ends_example = iter_records-ends setup source 0 drains
