-- ===== src/BigQuery/StorageWrite/Tests.antt =====
-- A sink of rows at a stream that answers its third request with an error, after it has taken it.
use agora_etl_plugins.Common.{
  ℕ, ◌+◌, ◌≡◌, refl, Bool, true, Option, none, some, List, [], ◌∷◌, ◌++◌, length, nat_beq, false,
}
use agora_etl_plugins.Common.Lists.{each}
use agora_etl_plugins.BigQuery.StorageWrite.{Flush, serialize_all, chunk_serialized_rows}
use agora_etl_plugins.BigQuery.StorageWrite.Chunks.{IsCut, chunk_serialized_rows-IsCut}

-- A row is its size. The stream keeps what it took and the number of its requests.
abbrev Stream : Type 0
Stream = List ℕ × ℕ

answered : Bool → List ℕ → List ℕ → ℕ → Stream × Option ℕ
answered true chunk rows requests = ((rows ++ chunk, requests + 1), none)
answered false chunk rows requests = ((rows ++ chunk, requests + 1), some (length rows))

append_rows : List ℕ → Stream → Stream × Option ℕ
unfolding answered
append_rows chunk (rows, requests) = answered (nat_beq requests 2) chunk rows requests

abbrev sink : Flush ℕ
sink = record {
  buffer = 4 ∷ 3 ∷ 6 ∷ 9 ∷ 2 ∷ [];
  batch_size = 5;
  max_request_bytes = 10;
  flush_count = 0;
  append_error_count = 0;
  submitted_row_count = 0;
  appended_row_count = 0;
  last_append_offset = none;
  last_append_succeeded = none;
  last_error = none;
}

held : serialize_all (λ n. some n) (λ n. some n) sink.buffer ≡ some (4 ∷ 3 ∷ 6 ∷ 9 ∷ 2 ∷ [])
unfolding serialize_all each
held = refl

chunk_serialized_rows-IsCut_example :
    IsCut
      (λ n. n)
      10
      []
      (4 ∷ 3 ∷ 6 ∷ 9 ∷ 2 ∷ [])
      (chunk_serialized_rows (λ n. n) 10 (4 ∷ 3 ∷ 6 ∷ 9 ∷ 2 ∷ []))
chunk_serialized_rows-IsCut_example =
    chunk_serialized_rows-IsCut (λ n. n) 10 (4 ∷ 3 ∷ 6 ∷ 9 ∷ 2 ∷ [])
