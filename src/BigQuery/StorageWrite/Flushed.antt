-- ===== src/BigQuery/StorageWrite/Flushed.antt =====
-- No row is lost by a flush, whether it ends well or not, and only an append that raised may leave
-- rows both with the stream and in the buffer.
use agora_etl_plugins.Common.{ℕ, ◌+◌, ◌≡◌, ◌≢◌, Bool, Option, none, some, List, [], ◌++◌, length}
use agora_etl_plugins.BigQuery.StorageWrite.{
  append_failed, Outcome, done, failed, Flush, append_chunks, serialize_all, flush,
}

-- What the stream has taken after an append of some rows: all of them where it returned, and where it
-- raised the first of them, which may be none, or all with the answer lost. Rows that the stream takes
-- later, when the client has given up, count too.
abbrev pub Takes : {P S : Type 0} → (S → List P) → List P → S → S × Option ℕ → Type 0
Takes {P} taken chunk s (s', none) =
    (first left : List P) × (chunk ≡ first ++ left) × (taken s' ≡ taken s ++ first)
Takes taken chunk s (s', some offset) = taken s' ≡ taken s ++ chunk

module _ {T Row P S : Type 0} (size : P → ℕ) (coerce_row : T → Option Row)
    (serialize_row : Row → Option P) (is_open : S → Bool) (ensure_open : S → S × Bool)
    (append_serialized_rows : List P → S → S × Option ℕ) (accepted : S → List P)
    (open_law : (s : S) → accepted (ensure_open s).0 ≡ accepted s)
    (append_law : (chunk : List P) (s : S)
      → Takes accepted chunk s (append_serialized_rows chunk s)) where
  abbrev serialized : List T → Option (List P)
  serialized = serialize_all coerce_row serialize_row

  -- The rows are those that went, which are with the stream and are counted, and those that are still
  -- in the buffer, in their order. What else the stream has, `doubtful`, are the first rows of the
  -- buffer, and there are none but where an append raised. The buffer is empty when all went well.
  unfoldable pub IsKept : List P → Flush T → S → Flush T × S × Outcome → Type 0
  IsKept rows f s (f', s', outcome) =
      (went doubtful rest : List P) × (serialized f'.buffer ≡ some (doubtful ++ rest))
      × (went ++ (doubtful ++ rest) ≡ rows)
      × (accepted s' ≡ (accepted s ++ went) ++ doubtful)
      × (f'.appended_row_count ≡ f.appended_row_count + length went)
      × (outcome ≢ failed append_failed → doubtful ≡ [])
      × (outcome ≡ done → rest ≡ [])

  abbrev sent : List (List P) → Flush T → S → Flush T × S × Outcome
  sent = append_chunks size coerce_row serialize_row is_open ensure_open append_serialized_rows

  abbrev flush_all : Flush T → S → Flush T × S × Outcome
  flush_all = flush size coerce_row serialize_row is_open ensure_open append_serialized_rows
