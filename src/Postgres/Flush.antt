-- ===== src/Postgres/Flush.antt =====
-- postgres/sinks/_flush_runtime.py: `PostgresFlushRuntime`; and the strategies of
-- _write_strategies.py. The driver, the pool of connections and `retry_async` are
-- other code. The text of the statements is left out: an insert is its columns, the number of its rows
-- and its parameters. psycopg is installed; times and log lines are left out.
pub mod Laws
pub mod Discard
pub mod Written
pub mod Transactions
pub mod Kept
mod Tests
use agora_etl_plugins.Common.{
  ℕ, zero, suc, ◌+◌, Bool, true, false, not, ◌&&◌, Option, none, some, List, [], ◌∷◌, ◌++◌,
  if◌then◌else◌, ltb, leb, length, Result, ok, raise, Eq, map,
}
use agora_etl_plugins.Common.Lists.{each}
use agora_etl_plugins.Common.Dict.{Dict}
use agora_etl_plugins.Common.Sets.{is_nil}
use agora_etl_plugins.Common.Sort.{sort}
use agora_etl_plugins.Postgres.Errors.{
  WriteError, Raised, foreign, write_error, Drift, wrap_write_error,
}
use agora_etl_plugins.Postgres.Preparation.{
  TargetColumn, WriteBatch, keys, Limits, align_rows_to_target, row_values, flatten_rows,
  iter_sql_chunks,
}

pub data SafetyPolicy : Type 0 where
  strict align_to_target : SafetyPolicy

abbrev pub is_align : SafetyPolicy → Bool
is_align strict = false
is_align align_to_target = true

pub data InsertMode : Type 0 where
  insert copy copy_merge : InsertMode

pub record Sink (K V : Type 0) : Type 0 where
  pub conflict_keys : List K
  pub batch_size : ℕ
  pub insert_mode : InsertMode
  pub limits : Limits
  pub write_safety_policy : SafetyPolicy
  pub buffer : List (Dict K V)
  pub retry_count : ℕ
  pub flush_count : ℕ
  pub flushed_row_count : ℕ
  pub drift : Drift

-- The calls of other code, on a state of its own. `retry_async` also says how often it retried.
pub record Database (K V D : Type 0) : Type 0 where
  pub load_target_columns : D → D × Result (Raised K) (List (TargetColumn K))
  pub acquire : D → D × Option (Raised K)
  pub leave : D → D
  pub execute : List K → ℕ → List V → D → D × Option (Raised K)
  pub copy_rows : List K → List (List V) → D → D × Option (Raised K)
  pub create_staging : D → D × Option (Raised K)
  pub copy_staging : List K → List (List V) → D → D × Option (Raised K)
  pub merge_staging : List K → D → D × Option (Raised K)
  pub commit : D → D × Option (Raised K)
  pub rollback : D → D × Option (Raised K)
  pub retry_async : (D → D × Option (Raised K)) → D → D × Option (Raised K) × ℕ

module _ {A : Type 0} where
  -- `del xs[index]`, within the list
  unfoldable pub delete_at : ℕ → List A → List A
  delete_at i [] = []
  delete_at zero (x ∷ xs) = xs
  delete_at (suc i) (x ∷ xs) = x ∷ delete_at i xs

  unfoldable pub delete_each : List ℕ → List A → List A
  unfolding delete_at
  delete_each [] xs = xs
  delete_each (i ∷ indexes) xs =
      delete_each indexes (if ltb i (length xs) then delete_at i xs else xs)

  -- `sorted(indexes, reverse=True)`, each deleted
  unfoldable pub discard_buffer_indexes : List ℕ → List A → List A
  unfolding delete_each
  discard_buffer_indexes indexes xs = delete_each (sort (λ i j. leb j i) indexes) xs

-- `range(start, start + count)`
unfoldable pub range : ℕ → ℕ → List ℕ
range start zero = []
range start (suc count) = start ∷ range (start + 1) count

module _ {K V D : Type 0} ⦃e : Eq K⦄ (db : Database K V D) where
  -- What a statement that may raise is followed by.
  unfoldable pub and_then :
      D × Option (Raised K) → (D → D × Option (Raised K)) → D × Option (Raised K)
  and_then (d, some error) next = (d, some error)
  and_then (d, none) next = next d

  unfoldable pub execute_params :
      Result (Raised K) (List V) → List K → ℕ → D → D × Option (Raised K)
  execute_params (raise error) columns row_count d = (d, some error)
  execute_params (ok params) columns row_count d = db.execute columns row_count params d

  unfoldable pub execute_chunks : List (List (Dict K V)) → List K → D → D × Option (Raised K)
  unfolding and_then execute_params
  execute_chunks [] columns d = (d, none)
  execute_chunks (chunk ∷ chunks) columns d =
      and_then (execute_params (flatten_rows chunk columns) columns (length chunk) d)
        (execute_chunks chunks columns)

  -- The rows of a copy. One that lacks a column ends the copy, which the driver abandons.
  unfoldable pub copy_values :
      (List (List V) → D → D × Option (Raised K))
      → Option (List (List V))
      → D
      → D × Option (Raised K)
  copy_values write_rows none d = (d, some (foreign none "KeyError"))
  copy_values write_rows (some values) d = write_rows values d

  unfoldable pub execute_batch : InsertMode → Limits → WriteBatch K V → D → D × Option (Raised K)
  unfolding execute_chunks copy_values and_then
  execute_batch insert limits b d =
      execute_chunks (iter_sql_chunks limits b.rows b.columns) b.columns d
  execute_batch copy limits b d =
      copy_values (db.copy_rows b.columns) (each (row_values b.columns) b.rows) d
  execute_batch copy_merge limits b d = and_then (db.create_staging d) (λ d1.
      and_then (copy_values (db.copy_staging b.columns) (each (row_values b.columns) b.rows) d1)
        (db.merge_staging b.columns))

  unfoldable pub execute_batches :
      InsertMode → Limits → List (WriteBatch K V) → D → D × Option (Raised K)
  unfolding execute_batch and_then
  execute_batches mode limits [] d = (d, none)
  execute_batches mode limits (b ∷ batches) d =
      and_then (execute_batch mode limits b d) (execute_batches mode limits batches)

  -- `except Exception: rollback; raise`, where an error of the rollback is logged.
  unfoldable pub roll_back : D × Option (Raised K) → D × Option (Raised K)
  roll_back (d, none) = (d, none)
  roll_back (d, some error) = ((db.rollback d).0, some error)

  unfoldable pub left : D × Option (Raised K) → D × Option (Raised K)
  left (d, outcome) = (db.leave d, outcome)

  -- `async with self._write_connection()`, around a body that commits.
  unfoldable pub in_transaction : (D → D × Option (Raised K)) → D → D × Option (Raised K)
  unfolding and_then roll_back left
  in_transaction body d =
      and_then (db.acquire d) (λ d1. left (roll_back (and_then (body d1) db.commit)))

  -- A copy is tried once.
  unfoldable pub with_retries :
      InsertMode → (D → D × Option (Raised K)) → D → D × Option (Raised K) × ℕ
  with_retries insert action d = db.retry_async action d
  with_retries copy action d = let (d', outcome) = action d in (d', outcome, 0)
  with_retries copy_merge action d = db.retry_async action d

  -- The except clause around a transaction.
  unfoldable pub settle :
      List K → ℕ → Sink K V → D × Option (Raised K) × ℕ → Sink K V × D × Option (WriteError K)
  unfolding wrap_write_error
  settle columns count k (d, none, retries) =
      (record k { retry_count = k.retry_count + retries }, d, none)
  settle columns count k (d, some error, retries) =
      let (drift, wrapped) = wrap_write_error error columns count k.drift in
      (record k { retry_count = k.retry_count + retries; drift = drift }, d, some wrapped)

  first_columns : List (Dict K V) → List K
  first_columns [] = []
  first_columns (row ∷ rows) = keys row

  -- All batches in one transaction.
  unfoldable pub flush_aligned_batches_atomically :
      List (WriteBatch K V) → List (Dict K V) → Sink K V → D → Sink K V × D × Option (WriteError K)
  unfolding settle with_retries in_transaction execute_batches first_columns
  flush_aligned_batches_atomically batches rows k d = settle (first_columns rows) (length rows) k (
      with_retries k.insert_mode (in_transaction (execute_batches k.insert_mode k.limits batches))
        d)

  -- `_flush_via_sql`, `_flush_via_copy` or `_flush_via_copy_merge`
  unfoldable pub flush_batch : WriteBatch K V → Sink K V → D → Sink K V × D × Option (WriteError K)
  unfolding settle with_retries in_transaction execute_batch
  flush_batch b k d =
      settle b.columns (length b.rows) k
        (with_retries k.insert_mode (in_transaction (execute_batch k.insert_mode k.limits b)) d)

  unfoldable pub after_batch :
      List ℕ
      → Sink K V × D × Option (WriteError K)
      → (Sink K V → D → Sink K V × D × List ℕ × Option (WriteError K))
      → Sink K V × D × List ℕ × Option (WriteError K)
  after_batch flushed (k, d, some error) next = (k, d, flushed, some error)
  after_batch flushed (k, d, none) next = next k d

  -- The loop over the batches, with the indexes of the rows that went.
  unfoldable pub flush_each :
      List (WriteBatch K V) → List ℕ → Sink K V → D → Sink K V × D × List ℕ × Option (WriteError K)
  unfolding after_batch flush_batch
  flush_each [] flushed k d = (k, d, flushed, none)
  flush_each (b ∷ batches) flushed k d =
      after_batch flushed (flush_batch b k d) (flush_each batches (flushed ++ b.row_indexes))

  aligned :
      Drift × Result (WriteError K) (List (WriteBatch K V))
      → D
      → D × Drift × Result (Raised K) (List (WriteBatch K V))
  aligned (drift, raise error) d = (d, drift, raise (write_error error))
  aligned (drift, ok batches) d = (d, drift, ok batches)

  align_loaded :
      Sink K V
      → List (Dict K V)
      → D × Result (Raised K) (List (TargetColumn K))
      → D × Drift × Result (Raised K) (List (WriteBatch K V))
  unfolding aligned
  align_loaded k rows (d, raise error) = (d, k.drift, raise error)
  align_loaded k rows (d, ok target_columns) =
      aligned (align_rows_to_target k.conflict_keys target_columns rows k.drift) d

  prepare_with :
      SafetyPolicy
      → Sink K V
      → List (Dict K V)
      → D
      → D × Drift × Result (Raised K) (List (WriteBatch K V))
  unfolding align_loaded range first_columns
  prepare_with strict k rows d =
      let b : WriteBatch K V = record {
        columns = first_columns rows;
        rows = rows;
        row_indexes = range 0 (length rows);
      } in
      (d, k.drift, ok (b ∷ []))
  prepare_with align_to_target k rows d = align_loaded k rows (db.load_target_columns d)

  unfoldable pub prepared_write_batches :
      Sink K V → List (Dict K V) → D → D × Drift × Result (Raised K) (List (WriteBatch K V))
  unfolding prepare_with
  prepared_write_batches k rows d =
      if is_nil rows then (d, k.drift, ok []) else prepare_with k.write_safety_policy k rows d

  unfoldable pub no_indexes :
      Sink K V × D × Option (WriteError K) → Sink K V × D × List ℕ × Option (WriteError K)
  no_indexes (k, d, outcome) = (k, d, [], outcome)

  unfoldable pub flush_batches :
      List (WriteBatch K V)
      → List (Dict K V)
      → Sink K V
      → D
      → Sink K V × D × List ℕ × Option (WriteError K)
  unfolding no_indexes flush_aligned_batches_atomically flush_each
  flush_batches batches rows k d =
      if is_align k.write_safety_policy && ltb 1 (length batches)
      then no_indexes (flush_aligned_batches_atomically batches rows k d)
      else flush_each batches [] k d

  -- The rows that went leave the buffer: all of them, where nothing was raised.
  unfoldable pub finish :
      List (Dict K V)
      → Sink K V × D × List ℕ × Option (WriteError K)
      → Sink K V × D × Option (WriteError K)
  unfolding discard_buffer_indexes range
  finish rows (k, d, flushed, some error) =
      (record k { buffer = discard_buffer_indexes flushed k.buffer }, d, some error)
  finish rows (k, d, flushed, none) = (
    record k {
      buffer = discard_buffer_indexes (range 0 (length rows)) k.buffer;
      flush_count = k.flush_count + 1;
      flushed_row_count = k.flushed_row_count + length rows;
    },
    d,
    none,
  )

  unfoldable pub after_prepare :
      List (Dict K V)
      → Sink K V
      → D × Drift × Result (Raised K) (List (WriteBatch K V))
      → Sink K V × D × Option (WriteError K)
  unfolding finish flush_batches wrap_write_error first_columns
  after_prepare rows k (d, drift, raise error) =
      let (drift', wrapped) = wrap_write_error error (first_columns rows) (length rows) drift in
      (record k { drift = drift' }, d, some wrapped)
  after_prepare rows k (d, drift, ok batches) =
      finish rows (flush_batches batches rows (record k { drift = drift }) d)

  unfoldable pub flush : Sink K V → D → Sink K V × D × Option (WriteError K)
  unfolding after_prepare prepared_write_batches
  flush k d =
      if is_nil k.buffer
      then (k, d, none)
      else after_prepare k.buffer k (prepared_write_batches k k.buffer d)
