-- ===== src/Kafka/Compaction.antt =====
-- kafka/_dlq_compaction.py: `KafkaDLQCompactionState`, the latest state of each dead letter, kept in a
-- `dict` and moved to a table of SQLite when there are too many. The records, their payloads, JSON,
-- the cipher and the database are other code.
pub mod Latest
pub mod Live
pub mod Tables
mod Tests
use agora_etl_plugins.Common.Dict
use agora_etl_plugins.Common.Dict.{Dict}
use agora_etl_plugins.Common.Sort.{sort}
use agora_etl_plugins.Common.{
  ℕ, String, Bool, true, false, not, ◌&&◌, Option, none, some, List, [], ◌∷◌, if◌then◌else◌, leb,
  length, string_eq, ◌==◌, ◌≡◌, ◌↔◌, In, ◌≤◌, All,
}

pub record Row (Text : Type 0) : Type 0 where
  pub sequence : ℕ
  pub payload : Option Text
  pub deleted : Bool

-- The statements that are sent to SQLite, and what they do: a table whose primary key is the text.
pub record Table (Db Text : Type 0) : Type 0 where
  pub create : Db
  pub insert : String → Row Text → Db → Db
  pub upsert : String → Row Text → Db → Db
  pub select_live : Db → List (String × ℕ × Text)
  pub row : String → Db → Option (Row Text)
  pub create_lem : (k : String) → row k create ≡ none
  pub insert_lem :
      (j k : String) (r : Row Text) (d : Db)
      → row k d ≡ none
      → row j (insert k r d) ≡ (if k == j then some r else row j d)
  pub upsert_lem :
      (j k : String) (r : Row Text) (d : Db)
      → row j (upsert k r d) ≡ (if k == j then some r else row j d)
  pub select_live_lem :
      (d : Db) (k : String) (n : ℕ) (t : Text)
      → In (k, n, t) (select_live d)
        ↔ (row k d ≡ some (record { sequence = n; payload = some t; deleted = false }))

pub data Mode : Type 0 where
  raw encrypted redacted : Mode

-- What is done with a record. `encrypt` and `decode_stored` are those of the policy.
pub record Codec (Rec Payload Text : Type 0) : Type 0 where
  pub mode : Option Mode
  pub record_to_payload : Rec → Payload
  pub payload_to_record : Payload → Rec
  pub storage_id : Rec → Option String
  pub with_storage_id : Option String → Rec → Rec
  pub dumps : Payload → Text
  pub loads : Text → Payload
  pub has_pipeline_id : Payload → Bool
  pub encrypt_payload : Payload → Payload
  pub decode_stored_payload : Payload → Option Payload

pub record State (Rec Db : Type 0) : Type 0 where
  pub spill_threshold : Option ℕ
  pub memory : Dict String (ℕ × Option Rec)
  pub conn : Option Db

abbrev pub initial : {Rec Db : Type 0} → Option ℕ → State Rec Db
initial threshold = record { spill_threshold = threshold; memory = []; conn = none }

module _ {Rec Payload Text Db : Type 0} (codec : Codec Rec Payload Text)
    (table : Table Db Text) where
  redact : Option Mode → Rec → Rec
  redact none r = r
  redact (some raw) r = r
  redact (some encrypted) r = r
  redact (some redacted) r =
      codec.with_storage_id (codec.storage_id r)
        (codec.payload_to_record (codec.record_to_payload r))

  unfoldable pub apply_payload_policy : Option Rec → Option Rec
  unfolding redact
  apply_payload_policy none = none
  apply_payload_policy (some r) = some (redact codec.mode r)

  unfoldable pub is_encrypted : Option Mode → Bool
  is_encrypted (some encrypted) = true
  is_encrypted _ = false

  unfoldable pub record_payload_json : Rec → Text
  unfolding is_encrypted
  record_payload_json r =
      let payload = codec.record_to_payload r in
      codec.dumps (if is_encrypted codec.mode then codec.encrypt_payload payload else payload)

  -- None where the code raises.
  unfoldable pub decode_record_payload_json : Text → Option Payload
  decode_record_payload_json text =
      let payload = codec.loads text in
      if codec.has_pipeline_id payload then some payload else codec.decode_stored_payload payload

  abbrev pub row_of : ℕ × Option Rec → Row Text
  row_of (n, none) = record { sequence = n; payload = none; deleted = true }
  row_of (n, some r) = record {
    sequence = n;
    payload = some (record_payload_json r);
    deleted = false;
  }

  unfoldable pub spill_rows : Dict String (ℕ × Option Rec) → Db → Db
  unfolding record_payload_json
  spill_rows [] d = d
  spill_rows ((k, x) ∷ memory) d = spill_rows memory (table.insert k (row_of x) d)

  unfoldable pub spill_to_sqlite : State Rec Db → State Rec Db
  unfolding spill_rows
  spill_to_sqlite s = record s { conn = some (spill_rows s.memory table.create); memory = [] }

  is_absent : Option (ℕ × Option Rec) → Bool
  is_absent none = true
  is_absent (some x) = false

  should_spill : Option ℕ → String → Dict String (ℕ × Option Rec) → Bool
  unfolding is_absent Dict.get
  should_spill none k memory = false
  should_spill (some threshold) k memory =
      leb threshold (length memory) && is_absent (Dict.get k memory)

  store : Option Db → String → ℕ × Option Rec → State Rec Db → State Rec Db
  unfolding record_payload_json
  store none k x s = record s { memory = Dict.put k x s.memory }
  store (some d) k x s = record s { conn = some (table.upsert k (row_of x) d) }

  spilled : Option Db → String → State Rec Db → State Rec Db
  unfolding should_spill spill_to_sqlite
  spilled (some d) k s = s
  spilled none k s = if should_spill s.spill_threshold k s.memory then spill_to_sqlite s else s

  unfoldable pub update : ℕ → String → Option Rec → State Rec Db → State Rec Db
  unfolding apply_payload_policy spilled store
  update n k r s = let s' = spilled s.conn k s in store s'.conn k (n, apply_payload_policy r) s'

  abbrev by_sequence : ℕ × Rec → ℕ × Rec → Bool
  by_sequence (n, r) (m, q) = leb n m

  unfoldable pub live_values : Dict String (ℕ × Option Rec) → List (ℕ × Rec)
  live_values [] = []
  live_values ((k, (n, none)) ∷ memory) = live_values memory
  live_values ((k, (n, some r)) ∷ memory) = (n, r) ∷ live_values memory

  -- `payload_to_record`, and the storage key as the record's.
  unfoldable pub restore_payload : String → Option Payload → Option Rec
  restore_payload k none = none
  restore_payload k (some payload) =
      some (codec.with_storage_id (some k) (codec.payload_to_record payload))

  unfoldable pub restore : String → Text → Option Rec
  unfolding restore_payload decode_record_payload_json
  restore k text = restore_payload k (decode_record_payload_json text)

  abbrev keep_row : ℕ → Option Rec → Option (List (ℕ × Rec)) → Option (List (ℕ × Rec))
  keep_row n none rest = none
  keep_row n (some r) none = none
  keep_row n (some r) (some rest) = some ((n, r) ∷ rest)

  unfoldable pub restore_rows : List (String × ℕ × Text) → Option (List (ℕ × Rec))
  unfolding restore
  restore_rows [] = some []
  restore_rows ((k, n, text) ∷ rows) = keep_row n (restore k text) (restore_rows rows)

  live_from : Option Db → State Rec Db → Option (List (ℕ × Rec))
  unfolding live_values restore_rows
  live_from none s = some (sort by_sequence (live_values s.memory))
  live_from (some d) s = restore_rows (table.select_live d)

  -- None where the code raises.
  unfoldable pub live_records : State Rec Db → Option (List (ℕ × Rec))
  unfolding live_from
  live_records s = live_from s.conn s

  unfoldable pub close : State Rec Db → State Rec Db
  close s = record s { conn = none }
