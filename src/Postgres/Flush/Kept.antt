-- ===== src/Postgres/Flush/Kept.antt =====
-- What a flush leaves in the database and in the buffer.
use agora_etl_plugins.Common.{
  ℕ, ◌+◌, ◌≡◌, false, Option, none, some, List, [], length, Result, ok, raise, Eq, ltb,
}
use agora_etl_plugins.Common.Dict.{Dict}
use agora_etl_plugins.Postgres.Errors.{Raised, WriteError, Drift}
use agora_etl_plugins.Postgres.Preparation.{WriteBatch}
use agora_etl_plugins.Postgres.Flush.{Sink, Database, prepared_write_batches, is_align}
use agora_etl_plugins.Postgres.Flush.Laws.{IsDatabase}
use agora_etl_plugins.Postgres.Flush.Written.{BatchesValues}
use agora_etl_plugins.Postgres.Flush.Transactions.{Tried, Done}

module _ {K V D : Type 0} ⦃e : Eq K⦄ (db : Database K V D) (laws : IsDatabase db) where
  open laws use {committed}

  -- How a flush, or a part of it, ends.
  abbrev Settled : (List V → Type 0) → Sink K V → D → Sink K V × D × Option (WriteError K) → Type 0
  Settled P k d (k', d', some error) = (k'.buffer ≡ k.buffer) × Tried db laws P d d'
  Settled P k d (k', d', none) =
      (k'.buffer ≡ k.buffer) × (k'.flushed_row_count ≡ k.flushed_row_count) × Done db laws P d d'

  -- The same with the indexes of the rows that went: none, where it raised.
  abbrev Flushed :
      (List V → Type 0) → Sink K V → D → Sink K V × D × List ℕ × Option (WriteError K) → Type 0
  Flushed P k d (k', d', flushed, some error) =
      (flushed ≡ []) × (k'.buffer ≡ k.buffer) × Tried db laws P d d'
  Flushed P k d (k', d', flushed, none) = Settled P k d (k', d', none)

  -- The values of the rows of the buffer, in the order of the batches that were prepared.
  unfoldable pub PreparedValues : Sink K V → D → List V → Type 0
  PreparedValues k d values =
      (batches : List (WriteBatch K V)) × ((prepared_write_batches db k k.buffer d).2 ≡ ok batches)
      × BatchesValues db laws batches values

  -- What a flush came to, of the sink and the database before it.
  unfoldable pub IsFlushed : Sink K V → D → Sink K V × D × Option (WriteError K) → Type 0
  IsFlushed k d (k', d', some error) =
      (k'.buffer ≡ k.buffer) × Tried db laws (PreparedValues k d) d d'
  IsFlushed k d (k', d', none) =
      (k'.buffer ≡ [])
      × (k'.flushed_row_count ≡ k.flushed_row_count + length k.buffer)
      × Done db laws (PreparedValues k d) d d'

  abbrev IsPrepared : Sink K V → D → D × Drift × Result (Raised K) (List (WriteBatch K V)) → Type 0
  IsPrepared k d (d', drift, raise error) = committed d' ≡ committed d
  IsPrepared k d (d', drift, ok batches) =
      (committed d' ≡ committed d)
      × (is_align k.write_safety_policy ≡ false → ltb 1 (length batches) ≡ false)
