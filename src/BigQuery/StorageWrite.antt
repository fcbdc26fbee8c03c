-- ===== src/BigQuery/StorageWrite.antt =====
-- bigquery/sinks/storage_write_flush.py: `BigQueryStorageWriteFlushRuntime`, a buffer of records that
-- is serialised, cut into chunks and appended to a write stream. The session, the conversion of a
-- record and the serialiser are other code: they may raise, and the stream has a state of its own.
-- Times and log lines are left out.
pub mod Chunks
pub mod Flushed
mod Tests
use agora_etl_plugins.Common.{
  ℕ, ◌+◌, Bool, true, false, not, ◌&&◌, Option, none, some, List, [], ◌∷◌, ◌++◌, if◌then◌else◌, ltb,
  leb, length, drop, Result, ok, raise,
}
use agora_etl_plugins.Common.Lists.{each}
use agora_etl_plugins.Common.Sets.{is_nil}

-- What a call raises: nothing is known of what the session, the serialiser and the stream raise.
pub data Failure : Type 0 where
  open_failed conversion_failed oversized_row append_failed : Failure

pub data Outcome : Type 0 where
  done : Outcome
  failed : Failure → Outcome

pub record Flush (T : Type 0) : Type 0 where
  pub buffer : List T
  pub batch_size : ℕ
  pub max_request_bytes : ℕ
  pub flush_count : ℕ
  pub append_error_count : ℕ
  pub submitted_row_count : ℕ
  pub appended_row_count : ℕ
  pub last_append_offset : Option ℕ
  pub last_append_succeeded : Option Bool
  pub last_error : Option Failure

abbrev pub each_option {ℓ κ} :
    {A : Type ℓ} {B : Type κ} → (A → Option B) → Option (List A) → Option (List B)
each_option f none = none
each_option f (some xs) = each f xs

module _ {P : Type 0} (size : P → ℕ) where
  -- One turn of the loop: the finished batches, the current one and its size.
  unfoldable pub add_payload : ℕ → P → List (List P) × List P × ℕ → List (List P) × List P × ℕ
  add_payload limit p (batches, current, current_size) =
      if not (is_nil current) && ltb limit (current_size + size p)
      then (batches ++ (current ∷ []), p ∷ [], size p)
      else (batches, current ++ (p ∷ []), current_size + size p)

  close_batch : List (List P) × List P × ℕ → List (List P)
  close_batch (batches, current, current_size) =
      if is_nil current then batches else batches ++ (current ∷ [])

  chunk_from : ℕ → List P → List (List P) × List P × ℕ → Result Failure (List (List P))
  unfolding add_payload close_batch
  chunk_from limit [] state = ok (close_batch state)
  chunk_from limit (p ∷ rows) state =
      let rest = chunk_from limit rows (add_payload limit p state) in
      if ltb limit (size p) then raise oversized_row else rest

  unfoldable pub chunk_serialized_rows : ℕ → List P → Result Failure (List (List P))
  unfolding chunk_from
  chunk_serialized_rows limit rows = chunk_from limit rows ([], [], 0)

-- The rows of the buffer, serialised.
unfoldable pub serialize_all :
    {T Row P : Type 0} → (T → Option Row) → (Row → Option P) → List T → Option (List P)
unfolding each
serialize_all coerce_row serialize_row records = each_option serialize_row (each coerce_row records)

module _ {T : Type 0} where
  -- The except clauses.
  unfoldable pub fail : Failure → Flush T → Flush T
  fail why f = record f {
    append_error_count = f.append_error_count + 1;
    last_append_succeeded = some false;
    last_error = some why;
  }

  -- The statements after an append.
  unfoldable pub appended : {P : Type 0} → List P → ℕ → Flush T → Flush T
  appended chunk offset f = record f {
    buffer = drop (length chunk) f.buffer;
    flush_count = f.flush_count + 1;
    submitted_row_count = f.submitted_row_count + length chunk;
    appended_row_count = f.appended_row_count + length chunk;
    last_append_offset = some offset;
    last_append_succeeded = some true;
    last_error = none;
  }

module _ {T Row P S : Type 0} (size : P → ℕ) (coerce_row : T → Option Row)
    (serialize_row : Row → Option P) (is_open : S → Bool) (ensure_open : S → S × Bool)
    (append_serialized_rows : List P → S → S × Option ℕ) where
  -- What follows an append that may raise.
  after_append :
      List P
      → Flush T
      → S × Option ℕ
      → (Flush T → S → Flush T × S × Outcome)
      → Flush T × S × Outcome
  unfolding fail appended
  after_append chunk f (s, none) next = (fail append_failed f, s, failed append_failed)
  after_append chunk f (s, some offset) next = next (appended chunk offset f) s

  append_chunks : List (List P) → Flush T → S → Flush T × S × Outcome
  unfolding after_append
  append_chunks [] f s = (f, s, done)
  append_chunks (chunk ∷ chunks) f s =
      after_append chunk f (append_serialized_rows chunk s) (append_chunks chunks)

  append_all : Result Failure (List (List P)) → Flush T → S → Flush T × S × Outcome
  unfolding append_chunks fail
  append_all (raise why) f s = (fail why f, s, failed why)
  append_all (ok chunks) f s = append_chunks chunks f s

  append_rows : Option (List P) → Flush T → S → Flush T × S × Outcome
  unfolding append_all chunk_serialized_rows fail
  append_rows none f s = (fail conversion_failed f, s, failed conversion_failed)
  append_rows (some rows) f s = append_all (chunk_serialized_rows size f.max_request_bytes rows) f s

  -- The session, opened where it is not.
  opened : S → S × Bool
  opened s = if is_open s then (s, true) else ensure_open s

  flush_from : Flush T → S × Bool → Flush T × S × Outcome
  unfolding append_rows serialize_all fail
  flush_from f (s, false) = (fail open_failed f, s, failed open_failed)
  flush_from f (s, true) = append_rows (serialize_all coerce_row serialize_row f.buffer) f s

  unfoldable pub flush : Flush T → S → Flush T × S × Outcome
  unfolding flush_from opened
  flush f s = if is_nil f.buffer then (f, s, done) else flush_from f (opened s)

  flush_if_full : Flush T → S → Flush T × S × Outcome
  unfolding flush
  flush_if_full f s = if leb f.batch_size (length f.buffer) then flush f s else (f, s, done)

  unfoldable pub write : T → Flush T → S → Flush T × S × Outcome
  unfolding flush_if_full
  write record' f s = flush_if_full (record f { buffer = f.buffer ++ (record' ∷ []) }) s

  unfoldable pub write_batch : List T → Flush T → S → Flush T × S × Outcome
  unfolding flush_if_full
  write_batch records f s = flush_if_full (record f { buffer = f.buffer ++ records }) s
