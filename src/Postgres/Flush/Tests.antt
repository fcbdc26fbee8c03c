-- ===== src/Postgres/Flush/Tests.antt =====
-- A table of texts and numbers, at a database that refuses its second statement with a deadlock, and
-- loses the answer to its first commit.
use agora_etl_plugins.Common.{
  ◌⊎◌, inr, zero, suc, ℕ, ◌+◌, ◌≡◌, refl, String, Bool, true, false, Option, none, some, List, [],
  ◌∷◌, ◌++◌, ok, nat_beq, string_eq, subst, All,
}
use agora_etl_plugins.Common.Lists.{flatten}
use agora_etl_plugins.Common.Dict.{Dict, put}
use agora_etl_plugins.Common.Sets.{has, add, set_of, is_subset, same_set}
use agora_etl_plugins.Postgres.Errors.{Raised, foreign, Drift}
use agora_etl_plugins.Postgres.Preparation.{
  TargetColumn, WriteBatch, Limits, align_rows_to_target, iter_sql_chunks, flatten_rows,
}
use agora_etl_plugins.Postgres.Preparation.Grouped.{
  normalize_rows, grouped_rows, align_rows_to_target-eq,
}
use agora_etl_plugins.Postgres.Preparation.Fits.{HasParams, align_rows_to_target-HasParams}
use agora_etl_plugins.Postgres.Preparation.Statements.{IsWithin, iter_sql_chunks-IsWithin}
use agora_etl_plugins.Postgres.Flush.{Sink, Database, insert, align_to_target, flush}
use agora_etl_plugins.Postgres.Flush.Laws.{Runs, last, again, IsDatabase}

-- `id` is required, `note` may be missing, `total` is computed by the database.
abbrev target_columns : List (TargetColumn String)
target_columns =
    record { name = "id"; nullable = false; has_default = false; writable = true }
    ∷ record { name = "note"; nullable = true; has_default = false; writable = true }
    ∷ record { name = "total"; nullable = true; has_default = true; writable = false }
    ∷ []

abbrev rows : List (Dict String ℕ)
rows =
    (("id", 1) ∷ ("note", 7) ∷ [])
    ∷ (("extra", 5) ∷ ("id", 2) ∷ [])
    ∷ (("note", 8) ∷ ("total", 9) ∷ ("id", 3) ∷ [])
    ∷ []

abbrev drift : Drift
drift = record {
  schema_drift_detected_count = 0;
  schema_drift_aligned_count = 0;
  poison_record_count = 0;
  poison_record_classification_counts = λ c. 0;
}

abbrev batches : List (WriteBatch String ℕ)
batches =
    record {
      columns = "id" ∷ "note" ∷ [];
      rows = (("id", 1) ∷ ("note", 7) ∷ []) ∷ (("note", 8) ∷ ("id", 3) ∷ []) ∷ [];
      row_indexes = 0 ∷ 2 ∷ [];
    }
    ∷ record { columns = "id" ∷ []; rows = (("id", 2) ∷ []) ∷ []; row_indexes = 1 ∷ [] }
    ∷ []

abbrev drifted : Drift
drifted = (align_rows_to_target ("id" ∷ []) target_columns rows drift).0

aligned_rows : align_rows_to_target ("id" ∷ []) target_columns rows drift ≡ (drifted, ok batches)
unfolding align_rows_to_target put
aligned_rows = refl

align_rows_to_target-eq_example :
    align_rows_to_target ("id" ∷ []) target_columns rows drift
    ≡ grouped_rows target_columns (normalize_rows ("id" ∷ []) target_columns 0 rows drift)
align_rows_to_target-eq_example = align_rows_to_target-eq target_columns ("id" ∷ []) rows drift

align_rows_to_target-HasParams_example : All (HasParams target_columns) batches
align_rows_to_target-HasParams_example =
    align_rows_to_target-HasParams target_columns ("id" ∷ []) rows drift drifted batches
      aligned_rows

-- Two parameters at most, so a row of two columns goes alone.
abbrev limits : Limits
limits = record { max_rows_per_statement = some 2; max_parameters_per_statement = 3 }

iter_sql_chunks-IsWithin_example :
    (flatten (iter_sql_chunks limits rows ("id" ∷ "note" ∷ [])) ≡ rows)
    × All (IsWithin limits 2) (iter_sql_chunks limits rows ("id" ∷ "note" ∷ []))
iter_sql_chunks-IsWithin_example = iter_sql_chunks-IsWithin limits rows ("id" ∷ "note" ∷ [])

record Server : Type 0 where
  committed : List ℕ
  pending : List ℕ
  staged : List ℕ
  requests : ℕ

abbrev tick : Server → Server
tick d = record d { requests = d.requests + 1 }

abbrev deadlock : Raised String
deadlock = foreign (some "40P01") "DeadlockDetected"

abbrev answered : Bool → Server → Server → Server × Option (Raised String)
answered true d d' = (d, some deadlock)
answered false d d' = (d', none)

abbrev execute : List String → ℕ → List ℕ → Server → Server × Option (Raised String)
execute columns n params d =
    answered (nat_beq d.requests 1) (tick d) (record (tick d) { pending = d.pending ++ params })

answered_keeps :
    (b : Bool) (d d' : Server)
    → d'.committed ≡ d.committed
    → (answered b d d').0.committed ≡ d.committed
answered_keeps true d d' h = refl
answered_keeps false d d' h = h

answered_adds :
    (b : Bool) (d d' : Server)
    → (answered b d d').1 ≡ none
    → (answered b d d').0.pending ≡ d'.pending
answered_adds true d d' h = cc
answered_adds false d d' h = refl

-- Some times more after an error.
abbrev after_try :
    ℕ
    → (Server → Server × Option (Raised String))
    → Server × Option (Raised String)
    → Server × Option (Raised String) × ℕ
after_try n action (d, none) = (d, none, 0)
after_try zero action (d, some error) = (d, some error, 0)
after_try (suc n) action (d, some error) =
    let (d', outcome, retries) = after_try n action (action d) in (d', outcome, retries + 1)

abbrev retry_async :
    (Server → Server × Option (Raised String)) → Server → Server × Option (Raised String) × ℕ
retry_async action d = after_try 2 action (action d)

after_try-Runs :
    (n : ℕ) (action : Server → Server × Option (Raised String)) (d : Server)
    → (r : Server × Option (Raised String)) → action d ≡ r
    → Runs action d ((after_try n action r).0, (after_try n action r).1)
after_try-Runs n action d (d', none) h = subst (Runs action d) h (last d)
after_try-Runs zero action d (d', some error) h = subst (Runs action d) h (last d)
after_try-Runs (suc n) action d (d', some error) h =
    again h (after_try-Runs n action d' (action d') refl)

abbrev null : List ℕ → Bool
null [] = true
null (x ∷ xs) = false

abbrev lose : Bool → Server → Server × Option (Raised String)
lose true d = (d, some (foreign none "OperationalError"))
lose false d = (d, none)

answered_commit :
    (b : Bool) (d : Server)
    → (lose b (record d { committed = d.committed ++ d.pending })).0.committed
      ≡ d.committed ++ d.pending
answered_commit true d = refl
answered_commit false d = refl

abbrev server : Database String ℕ Server
server = record {
  load_target_columns = λ d. (tick d, ok target_columns);
  acquire = λ d. (record d { pending = [] }, none);
  leave = λ d. d;
  execute = execute;
  copy_rows = λ columns values d. (record d { pending = d.pending ++ flatten values }, none);
  create_staging = λ d. (record d { staged = [] }, none);
  copy_staging = λ columns values d. (record d { staged = d.staged ++ flatten values }, none);
  merge_staging = λ columns d. (record d { pending = d.pending ++ d.staged }, none);
  commit = λ d. lose (null d.committed) (record d { committed = d.committed ++ d.pending });
  rollback = λ d. (d, none);
  retry_async = retry_async;
}

-- The answer to the first commit is lost.
commit_doubtful :
    (d : Server) (error : Raised String)
    → (server.commit d).1 ≡ some error
    → ((server.commit d).0.committed ≡ d.committed)
      ⊎ ((server.commit d).0.committed ≡ d.committed ++ d.pending)
commit_doubtful d error h = inr (answered_commit (null d.committed) d)

abbrev laws : IsDatabase server
laws = record {
  committed = λ d. d.committed;
  pending = λ d. d.pending;
  staged = λ d. d.staged;
  load_keeps = λ d. refl;
  acquire_keeps = λ d. refl;
  acquire_begins = λ d h. refl;
  leave_keeps = λ d. refl;
  execute_keeps = λ columns n params d. answered_keeps (nat_beq d.requests 1) (tick d) _ refl;
  execute_adds = λ columns n params d. answered_adds (nat_beq d.requests 1) (tick d) _;
  copy_keeps = λ columns values d. refl;
  copy_adds = λ columns values d h. refl;
  create_keeps = λ d. refl;
  create_empty = λ d h. (refl, refl);
  copy_staging_keeps = λ columns values d. refl;
  copy_staging_adds = λ columns values d h. (refl, refl);
  merge_keeps = λ columns d. refl;
  merge_adds = λ columns d h. refl;
  commit_doubtful = commit_doubtful;
  commit_adds = λ d h. answered_commit (null d.committed) d;
  rollback_keeps = λ d. refl;
  retry_runs = λ action d. after_try-Runs 2 action d (action d) refl;
}

abbrev sink : Sink String ℕ
sink = record {
  conflict_keys = "id" ∷ [];
  batch_size = 3;
  insert_mode = insert;
  limits = limits;
  write_safety_policy = align_to_target;
  buffer = rows;
  retry_count = 0;
  flush_count = 0;
  flushed_row_count = 0;
  drift = drift;
}

abbrev start : Server
start = record { committed = []; pending = []; staged = []; requests = 0 }

-- The first statement of all is refused, and the answer to the first commit is lost: the third try of
-- the transaction returns, and its rows stand there twice.
flushed_rows : (flush server sink start).1.committed ≡ 1 ∷ 7 ∷ 3 ∷ 8 ∷ 2 ∷ 1 ∷ 7 ∷ 3 ∷ 8 ∷ 2 ∷ []
unfolding flush align_rows_to_target put iter_sql_chunks flatten_rows same_set is_subset set_of add
    has
flushed_rows = refl
