-- ===== src/Kafka/Compaction/Tests.antt =====
-- Three updates of two keys, with room for one key in memory. A record is a number, which
-- is its payload and its JSON too, and keeps no storage key; a table is a dictionary.
use agora_etl_plugins.Common.{ℕ, refl, none, some, List, [], ◌∷◌, string_eq}
use agora_etl_plugins.Kafka.Compaction.{
  initial, restore, restore_payload, decode_record_payload_json, record_payload_json, is_encrypted,
  live_records,
}
use agora_etl_plugins.Kafka.Compaction.Latest.{Update, update_all, latest}
use agora_etl_plugins.Kafka.Compaction.Tables.{dict_table, codec}
use agora_etl_plugins.Kafka.Compaction.Live.{AreLatest, ReadsBack, live_records-AreLatest}

abbrev updates : List (Update ℕ)
updates =
    record { sequence = 0; storage_key = "a"; contents = some 7 }
    ∷ record { sequence = 1; storage_key = "b"; contents = some 8 }
    ∷ record { sequence = 2; storage_key = "a"; contents = none }
    ∷ []

reads_back : ReadsBack codec dict_table (latest codec dict_table updates (λ k. none))
unfolding restore restore_payload decode_record_payload_json record_payload_json is_encrypted
reads_back k n r e = refl

live_records-AreLatest_example :
    AreLatest codec dict_table
      (latest codec dict_table updates (λ k. none))
      (live_records codec dict_table (update_all codec dict_table updates (initial (some 1))))
live_records-AreLatest_example = live_records-AreLatest codec dict_table (some 1) updates reads_back
