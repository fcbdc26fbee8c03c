-- ===== src/Postgres/Errors.antt =====
-- postgres/sinks/_poison_runtime.py: the errors of a write and their classification, and what is
-- counted of them (_runtime_state.py). Of an exception of other code the model has its SQLSTATE, if
-- it has one, and the name of its type; messages, and the table's name, are left out.
use agora_etl_plugins.Common.{
  ℕ, ◌+◌, String, Bool, true, false, Option, none, some, List, if◌then◌else◌, ◌==◌, string_eq,
}

pub data Classification : Type 0 where
  schema_drift constraint_violation type_mismatch unknown : Classification

-- The rejected row is known by its index in the batch. `K` are the names of columns.
pub data WriteError (K : Type 0) : Type 0 where
  missing_conflict_keys : ℕ → List K → List K → WriteError K
  missing_required_columns : ℕ → List K → List K → WriteError K
  no_writable_columns : ℕ → List K → WriteError K
  write_failed : Classification → String → Option String → List K → ℕ → WriteError K

abbrev pub classification : {K : Type 0} → WriteError K → Classification
classification (missing_conflict_keys _ _ _) = schema_drift
classification (missing_required_columns _ _ _) = schema_drift
classification (no_writable_columns _ _) = schema_drift
classification (write_failed c _ _ _ _) = c

-- What may be raised while rows are written.
pub data Raised (K : Type 0) : Type 0 where
  write_error : WriteError K → Raised K
  foreign : Option String → String → Raised K

pub record Drift : Type 0 where
  pub schema_drift_detected_count : ℕ
  pub schema_drift_aligned_count : ℕ
  pub poison_record_count : ℕ
  pub poison_record_classification_counts : Classification → ℕ

abbrev pub same_class : Classification → Classification → Bool
same_class schema_drift schema_drift = true
same_class constraint_violation constraint_violation = true
same_class type_mismatch type_mismatch = true
same_class unknown unknown = true
same_class _ _ = false

unfoldable pub observe_schema_drift_detected : Drift → Drift
observe_schema_drift_detected d = record d {
  schema_drift_detected_count = d.schema_drift_detected_count + 1;
}

unfoldable pub observe_schema_drift_aligned : ℕ → Drift → Drift
observe_schema_drift_aligned n d = record d {
  schema_drift_aligned_count = d.schema_drift_aligned_count + n;
}

unfoldable pub observe_poison_record : {K : Type 0} → WriteError K → Drift → Drift
observe_poison_record error d = record d {
  poison_record_count = d.poison_record_count + 1;
  poison_record_classification_counts = λ c.
      if same_class (classification error) c
      then d.poison_record_classification_counts c + 1
      else d.poison_record_classification_counts c;
}

-- Of an SQLSTATE: the classification, and the reason, which is else the name of the type.
unfoldable pub classify : String → String → Classification × String
classify name state =
    if state == "42P01"
    then (schema_drift, "undefined_table")
    else if state == "42703"
    then (schema_drift, "undefined_column")
    else if state == "23502"
    then (constraint_violation, "not_null_violation")
    else if state == "23505"
    then (constraint_violation, "unique_violation")
    else if state == "23503"
    then (constraint_violation, "foreign_key_violation")
    else if state == "23514"
    then (constraint_violation, "check_violation")
    else if state == "22P02"
    then (type_mismatch, "invalid_text_representation")
    else if state == "42804"
    then (type_mismatch, "datatype_mismatch")
    else (unknown, name)

abbrev classify_state : String → Option String → Classification × String
classify_state name none = (unknown, name)
classify_state name (some state) = classify name state

abbrev observe_class : Classification → Drift → Drift
observe_class c d = if same_class schema_drift c then observe_schema_drift_detected d else d

-- `wrap_write_error`, for `count` rows.
unfoldable pub wrap_write_error :
    {K : Type 0} → Raised K → List K → ℕ → Drift → Drift × WriteError K
unfolding classify observe_schema_drift_detected observe_poison_record
wrap_write_error (write_error error) columns count d = (d, error)
wrap_write_error (foreign state name) columns count d =
    let c = classify_state name state in
    let error = write_failed c.0 c.1 state columns count in
    (observe_poison_record error (observe_class c.0 d), error)
