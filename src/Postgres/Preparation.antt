-- ===== src/Postgres/Preparation.antt =====
-- postgres/sinks/_write_preparation.py: `PostgresWritePreparation`, which fits rows to the columns of
-- the target table and cuts them into statements. A row is a `dict`; names of columns are compared
-- by an equality, and the columns of the table are those that the catalog names.
pub mod Grouped
pub mod Fits
pub mod Statements
use agora_etl_plugins.Common.{
  ℕ, ◌+◌, ◌/◌, max, min, Bool, true, false, not, ◌&&◌, ◌||◌, Option, none, some, List, [], ◌∷◌,
  ◌++◌, if◌then◌else◌, length, Result, ok, raise, map, Eq, take, drop, zero, suc, nat_beq, list_eq,
}
use agora_etl_plugins.Common.Lists.{filter, each}
use agora_etl_plugins.Common.Dict.{Dict, get, put, put_all}
use agora_etl_plugins.Common.Sets.{has, is_nil, set_of, same_set}
use agora_etl_plugins.Postgres.Errors.{
  WriteError, missing_conflict_keys, missing_required_columns, no_writable_columns, Drift,
  observe_schema_drift_detected, observe_schema_drift_aligned, observe_poison_record, Raised,
  foreign, write_error,
}

pub record TargetColumn (K : Type 0) : Type 0 where
  pub name : K
  pub nullable : Bool
  pub has_default : Bool
  pub writable : Bool

pub record WriteBatch (K V : Type 0) : Type 0 where
  pub columns : List K
  pub rows : List (Dict K V)
  pub row_indexes : List ℕ

abbrev pub keys : {K V : Type 0} → Dict K V → List K
keys row = map (λ item. item.0) row

abbrev pub is_some : {A : Type 0} → Option A → Bool
is_some none = false
is_some (some a) = true

module _ {K : Type 0} ⦃e : Eq K⦄ where
  -- `key in target_by_name and target_by_name[key].writable`
  abbrev names_writable : Option (TargetColumn K) → Bool
  names_writable none = false
  names_writable (some column) = column.writable

  unfoldable pub is_writable : List (TargetColumn K) → K → Bool
  unfolding get put_all
  is_writable target_columns key =
      names_writable (get key (put_all (map (λ c. (c.name, c)) target_columns) []))

  observe_unknown : List K → Drift → Drift
  unfolding observe_schema_drift_detected observe_schema_drift_aligned
  observe_unknown unknown_columns d =
      if is_nil unknown_columns
      then d
      else observe_schema_drift_aligned (length unknown_columns) (observe_schema_drift_detected d)

-- The batches so far by their columns, each with its rows and their indexes, and the order in
-- which their columns came.
abbrev pub Groups : Type 0 → Type 0 → Type 0
Groups K V = Dict (List K) (List (ℕ × Dict K V)) × List (List K)

abbrev pub or_empty : {A : Type 0} → Option (List A) → List A
or_empty none = []
or_empty (some xs) = xs

module _ {K V : Type 0} ⦃e : Eq K⦄ where
  abbrev pub lacks : Dict K V → K → Bool
  lacks row key = not (is_some (get key row))

  unfoldable pub is_missing : Dict K V → TargetColumn K → Bool
  is_missing row c = c.writable && (lacks row c.name && (not c.nullable && not c.has_default))

  -- The row without the columns that cannot be written.
  unfoldable pub writable_part : List (TargetColumn K) → Dict K V → Dict K V
  unfolding filter is_writable
  writable_part target_columns row = filter (λ item. is_writable target_columns item.0) row

  -- `raise self._make_write_error(…)`
  abbrev fail : WriteError K → Drift → Drift × Result (WriteError K) (Dict K V)
  fail error d = (observe_poison_record error d, raise error)

  -- The three checks, of the keys and the columns that are missing.
  checked :
      ℕ → List K → List K → List K → Dict K V → Drift → Drift × Result (WriteError K) (Dict K V)
  unfolding observe_poison_record observe_schema_drift_detected
  checked row_index input missing_keys missing_required normalized d =
      if not (is_nil missing_keys)
      then fail (missing_conflict_keys row_index missing_keys input) d
      else if not (is_nil missing_required)
      then fail (missing_required_columns row_index missing_required input)
          (observe_schema_drift_detected d)
      else if is_nil normalized
      then fail (no_writable_columns row_index input) d
      else (d, ok normalized)

  unfoldable pub normalize_row_to_target :
      List K
      → List (TargetColumn K)
      → ℕ
      → Dict K V
      → Drift
      → Drift × Result (WriteError K) (Dict K V)
  unfolding checked observe_unknown writable_part is_missing filter is_writable
  normalize_row_to_target conflict_keys target_columns row_index row d =
      let normalized = writable_part target_columns row in
      checked row_index (keys row) (filter (lacks normalized) conflict_keys)
        (map (λ c. c.name) (filter (is_missing normalized) target_columns)) normalized
        (observe_unknown (filter (λ key. not (is_writable target_columns key)) (keys row)) d)

  -- `[column for column in writable_order if column in normalized_row]`
  unfoldable pub ordered_columns : List (TargetColumn K) → Dict K V → List K
  unfolding filter
  ordered_columns target_columns row =
      filter (λ key. is_some (get key row))
        (map (λ c. c.name) (filter (λ c. c.writable) target_columns))

  unfoldable pub add_with :
      List K → ℕ × Dict K V → Groups K V → Option (List (ℕ × Dict K V)) → Groups K V
  add_with columns item (grouped, order) none =
      (put columns (item ∷ []) grouped, order ++ (columns ∷ []))
  add_with columns item (grouped, order) (some group) =
      (put columns (group ++ (item ∷ [])) grouped, order)

  unfoldable pub add_to_group : List K → ℕ × Dict K V → Groups K V → Groups K V
  unfolding add_with
  add_to_group columns item g = add_with columns item g (get columns g.0)

  unfoldable pub batch_of : List K → List (ℕ × Dict K V) → WriteBatch K V
  batch_of columns group = record {
    columns = columns;
    rows = map (λ item. item.1) group;
    row_indexes = map (λ item. item.0) group;
  }

  unfoldable pub batches_of : Groups K V → List (WriteBatch K V)
  unfolding batch_of
  batches_of (grouped, order) =
      map (λ columns. batch_of columns (or_empty (get columns grouped))) order

  -- A turn of the loop, with what follows it.
  unfoldable pub add_row :
      List (TargetColumn K)
      → ℕ
      → Groups K V
      → Drift × Result (WriteError K) (Dict K V)
      → (Groups K V → Drift → Drift × Result (WriteError K) (Groups K V))
      → Drift × Result (WriteError K) (Groups K V)
  unfolding add_to_group ordered_columns
  add_row target_columns index g (d, raise error) next = (d, raise error)
  add_row target_columns index g (d, ok row) next =
      next (add_to_group (ordered_columns target_columns row) (index, row) g) d

  unfoldable pub align_from :
      List K
      → List (TargetColumn K)
      → ℕ
      → List (Dict K V)
      → Groups K V
      → Drift
      → Drift × Result (WriteError K) (Groups K V)
  unfolding add_row normalize_row_to_target
  align_from conflict_keys target_columns index [] g d = (d, ok g)
  align_from conflict_keys target_columns index (row ∷ rows) g d =
      add_row target_columns index g
        (normalize_row_to_target conflict_keys target_columns index row d)
        (align_from conflict_keys target_columns (index + 1) rows)

  unfoldable pub batches_result :
      Drift × Result (WriteError K) (Groups K V)
      → Drift × Result (WriteError K) (List (WriteBatch K V))
  unfolding batches_of
  batches_result (d, raise error) = (d, raise error)
  batches_result (d, ok g) = (d, ok (batches_of g))

  unfoldable pub align_rows_to_target :
      List K
      → List (TargetColumn K)
      → List (Dict K V)
      → Drift
      → Drift × Result (WriteError K) (List (WriteBatch K V))
  unfolding align_from batches_result
  align_rows_to_target conflict_keys target_columns rows d =
      batches_result (align_from conflict_keys target_columns 0 rows ([], []) d)

  unfoldable pub extend_params :
      Option (List V) → Result (Raised K) (List V) → Result (Raised K) (List V)
  extend_params none rest = raise (foreign none "KeyError")
  extend_params (some values) (raise error) = raise error
  extend_params (some values) (ok params) = ok (values ++ params)

  -- `row[column] for column in columns`
  unfoldable pub row_values : List K → Dict K V → Option (List V)
  unfolding each
  row_values columns row = each (λ column. get column row) columns

  unfoldable pub flatten_rows : List (Dict K V) → List K → Result (Raised K) (List V)
  unfolding extend_params row_values
  flatten_rows [] columns = ok []
  flatten_rows (row ∷ rows) columns =
      let params = extend_params (row_values columns row) (flatten_rows rows columns) in
      if same_set (set_of (keys row)) (set_of columns)
      then params
      else raise (foreign none "ValueError")

pub record Limits : Type 0 where
  pub max_rows_per_statement : Option ℕ
  pub max_parameters_per_statement : ℕ

abbrev limited : Option ℕ → ℕ → ℕ
limited none by_params = by_params
limited (some max_rows) by_params = max 1 (min max_rows by_params)

unfoldable pub statement_row_limit : Limits → ℕ → ℕ
statement_row_limit limits column_count =
    if nat_beq column_count 0
    then 1
    else limited limits.max_rows_per_statement
        (max 1 (limits.max_parameters_per_statement / column_count))

-- One chunk for each start of the range: as many as there are rows at most.
unfoldable pub chunks_from : {A : Type 0} → ℕ → ℕ → List A → List (List A)
chunks_from zero size rows = []
chunks_from (suc n) size [] = []
chunks_from (suc n) size (row ∷ rows) =
    take size (row ∷ rows) ∷ chunks_from n size (drop size (row ∷ rows))

unfoldable pub iter_sql_chunks :
    {K V : Type 0} → Limits → List (Dict K V) → List K → List (List (Dict K V))
unfolding chunks_from statement_row_limit
iter_sql_chunks limits rows columns =
    chunks_from (length rows) (statement_row_limit limits (length columns)) rows
