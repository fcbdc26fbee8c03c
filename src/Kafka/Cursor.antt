-- ===== src/Kafka/Cursor.antt =====
-- kafka/sources/_cursor_state.py: `KafkaCursorState`, the offsets that a source has delivered, may
-- commit, checkpoints and resumes from. `_on_change` is counted in `changes`. Topics are texts,
-- partitions and offsets numbers, so that `normalize_offset_map` leaves its argument as it is.
pub mod OffsetMap
pub mod Checkpoints
pub mod Revocation
mod Tests
use agora_etl_plugins.Common.Dict
use agora_etl_plugins.Common.Dict.{Dict}
use agora_etl_plugins.Common.Sort.{codes, codes_leb, sort, last}
use agora_etl_plugins.Common.{
  ℕ, zero, suc, ◌+◌, ◌≡◌, String, Bool, true, false, not, ◌&&◌, ◌||◌, List, [], ◌∷◌, ◌++◌, map,
  Option, none, some, leb, if◌then◌else◌, ◌==◌, nat_eq, string_eq, pair_eq, Eq,
}

abbrev pub TopicPartition : Type 0
TopicPartition = String × ℕ

abbrev pub Offsets : Type 0
Offsets = Dict TopicPartition ℕ

pub record Checkpoint : Type 0 where
  pub topic : String
  pub partition : ℕ
  pub offset : ℕ
  pub offsets : List (TopicPartition × ℕ)

pub record CursorState : Type 0 where
  pub start_offsets : Offsets
  pub resume_offsets : Offsets
  pub positioning_applied : Bool
  pub pending_commit_count : ℕ
  pub processed_offsets : Offsets
  pub committable_offsets : Offsets
  pub last_seen : Option (TopicPartition × ℕ)
  pub checkpoint_cache : Option Checkpoint
  pub checkpoint_dirty : Bool
  pub changes : ℕ

abbrev pub init : Offsets → CursorState
init start_offsets = record {
  start_offsets = start_offsets;
  resume_offsets = [];
  positioning_applied = false;
  pending_commit_count = 0;
  processed_offsets = [];
  committable_offsets = [];
  last_seen = none;
  checkpoint_cache = none;
  checkpoint_dirty = false;
  changes = 0;
}

abbrev pub on_change : CursorState → CursorState
on_change s = record s { changes = s.changes + 1 }

abbrev pub is_empty {ℓ} : {A : Type ℓ} → List A → Bool
is_empty [] = true
is_empty (x ∷ xs) = false

-- The order of Python on `((topic, partition), offset)`.
unfoldable pub item_leb : TopicPartition × ℕ → TopicPartition × ℕ → Bool
item_leb ((t, p), o) ((u, q), r) =
    if not (t == u)
    then codes_leb (codes t) (codes u)
    else if not (p == q)
    then leb p q
    else leb o r

-- `sorted(offsets.items())`
unfoldable pub sorted_items : Offsets → List (TopicPartition × ℕ)
sorted_items = sort item_leb

unfoldable pub set_start_offsets : Offsets → CursorState → CursorState
set_start_offsets offsets s = on_change (record s { start_offsets = offsets })

unfoldable pub set_resume_offsets : Offsets → CursorState → CursorState
set_resume_offsets offsets s = on_change (record s { resume_offsets = offsets })

pub set_processed_offsets : Offsets → CursorState → CursorState
set_processed_offsets offsets s =
    let s' = record s { processed_offsets = offsets; checkpoint_dirty = true } in
    on_change (
      if is_empty offsets
      then record s' { last_seen = none; checkpoint_cache = none }
      else record s' { last_seen = last (sorted_items offsets) })

unfoldable pub set_committable_offsets : Offsets → CursorState → CursorState
set_committable_offsets offsets s = on_change (record s { committable_offsets = offsets })

unfoldable pub set_pending_commit_count : ℕ → CursorState → CursorState
set_pending_commit_count n s = on_change (record s { pending_commit_count = n })

unfoldable pub set_positioning_applied : Bool → CursorState → CursorState
set_positioning_applied b s = on_change (record s { positioning_applied = b })

unfoldable pub set_last_seen : Option (TopicPartition × ℕ) → CursorState → CursorState
set_last_seen value s = on_change (record s { last_seen = value; checkpoint_dirty = true })

unfoldable pub discard_tracking_state : CursorState → CursorState
discard_tracking_state s = on_change (record s {
  pending_commit_count = 0;
  processed_offsets = [];
  committable_offsets = [];
  last_seen = none;
  checkpoint_cache = none;
  checkpoint_dirty = false;
})

unfoldable pub reset_for_stream : CursorState → CursorState
reset_for_stream s = on_change (record s {
  pending_commit_count = 0;
  processed_offsets = [];
  committable_offsets = [];
  last_seen = none;
  checkpoint_cache = none;
  checkpoint_dirty = false;
  positioning_applied = false;
})

unfoldable pub prepare_resume : Offsets → CursorState → CursorState
prepare_resume offsets s =
    on_change (record s { positioning_applied = false; resume_offsets = offsets })

-- `self._start_offsets or self._resume_offsets`
unfoldable pub positioning_targets : CursorState → Offsets
positioning_targets s = if is_empty s.start_offsets then s.resume_offsets else s.start_offsets

unfoldable pub has_exact_start_offsets : CursorState → Bool
has_exact_start_offsets s = not (is_empty s.start_offsets)

unfoldable pub mark_positioning_applied : CursorState → CursorState
mark_positioning_applied s = on_change (record s { positioning_applied = true })

unfoldable pub apply_exact_positioning : Offsets → CursorState → CursorState
unfolding discard_tracking_state
apply_exact_positioning offsets s =
    discard_tracking_state
      (record s { start_offsets = offsets; resume_offsets = []; positioning_applied = true })

unfoldable pub clear_positioning_targets : CursorState → CursorState
unfolding discard_tracking_state
clear_positioning_targets s =
    discard_tracking_state
      (record s { start_offsets = []; resume_offsets = []; positioning_applied = true })

unfoldable pub remember_processed_offset : TopicPartition → ℕ → CursorState → CursorState
remember_processed_offset tp offset s = on_change (record s {
  processed_offsets = Dict.put tp offset s.processed_offsets;
  last_seen = some (tp, offset);
  checkpoint_dirty = true;
})

unfoldable pub remember_committable_offset : TopicPartition → ℕ → CursorState → CursorState
remember_committable_offset tp offset s =
    on_change (record s { committable_offsets = Dict.put tp offset s.committable_offsets })

-- `if count <= 0: return`
unfoldable pub increment_pending_commit_count : ℕ → CursorState → CursorState
increment_pending_commit_count zero s = s
increment_pending_commit_count (suc n) s =
    on_change (record s { pending_commit_count = s.pending_commit_count + suc n })

unfoldable pub clear_pending_commit_count : CursorState → CursorState
clear_pending_commit_count s = on_change (record s { pending_commit_count = 0 })

unfoldable pub mark_delivered_message : TopicPartition → ℕ → Bool → CursorState → CursorState
unfolding remember_processed_offset remember_committable_offset increment_pending_commit_count
mark_delivered_message tp offset enable_auto_commit s =
    let s' = remember_committable_offset tp offset (remember_processed_offset tp offset s) in
    if enable_auto_commit then s' else increment_pending_commit_count 1 s'

unfoldable pub mark_transaction_committed : TopicPartition → ℕ → CursorState → CursorState
unfolding remember_processed_offset remember_committable_offset clear_pending_commit_count
mark_transaction_committed tp offset s =
    clear_pending_commit_count
      (remember_committable_offset tp offset (remember_processed_offset tp offset s))

-- `build_topic_partition` makes a named tuple of its arguments, so distinct keys stay distinct and
-- the comprehension is a map.
unfoldable pub build_commit_offsets {ℓ} :
    {K : Type ℓ} → (TopicPartition → K) → CursorState → Dict K ℕ
build_commit_offsets build s = map (λ e. (build e.0, e.1 + 1)) s.committable_offsets

-- `for key in revoked: offsets.pop(key, None)`
unfoldable pub drop_keys : List TopicPartition → Offsets → Offsets
drop_keys [] offsets = offsets
drop_keys (key ∷ revoked) offsets = drop_keys revoked (Dict.remove key offsets)

unfoldable pub contains : TopicPartition → List TopicPartition → Bool
contains key [] = false
contains key (k ∷ keys) = k == key || contains key keys

-- The last record seen, once the revoked partitions are gone from the processed offsets.
last_seen_after :
    List TopicPartition → Offsets → Option (TopicPartition × ℕ) → Option (TopicPartition × ℕ)
last_seen_after revoked processed none = none
last_seen_after revoked processed (some (tp, offset)) =
    if contains tp revoked then last (sorted_items processed) else some (tp, offset)

unfoldable pub drop_revoked : List TopicPartition → CursorState → CursorState
unfolding drop_keys last_seen_after
drop_revoked revoked s =
    let processed = drop_keys revoked s.processed_offsets in
    on_change (record s {
      committable_offsets = drop_keys revoked s.committable_offsets;
      processed_offsets = processed;
      last_seen = last_seen_after revoked processed s.last_seen;
      checkpoint_dirty = true;
    })

unfoldable pub build_checkpoint : TopicPartition × ℕ → Offsets → Checkpoint
build_checkpoint ((topic, partition), offset) processed = record {
  topic = topic;
  partition = partition;
  offset = offset;
  offsets = sorted_items processed;
}

-- The value, and the state with its cache.
refresh_checkpoint : TopicPartition × ℕ → CursorState → Option Checkpoint × CursorState
refresh_checkpoint seen s =
    let c = build_checkpoint seen s.processed_offsets in
    (some c, record s { checkpoint_cache = some c; checkpoint_dirty = false })

cached_checkpoint :
    TopicPartition × ℕ → Option Checkpoint → Bool → CursorState → Option Checkpoint × CursorState
cached_checkpoint seen (some c) false s = (some c, s)
cached_checkpoint seen _ _ s = refresh_checkpoint seen s

checkpoint_at : Option (TopicPartition × ℕ) → CursorState → Option Checkpoint × CursorState
unfolding cached_checkpoint
checkpoint_at none s = (none, s)
checkpoint_at (some seen) s = cached_checkpoint seen s.checkpoint_cache s.checkpoint_dirty s

pub current_checkpoint : CursorState → Option Checkpoint × CursorState
unfolding checkpoint_at
current_checkpoint s =
    if is_empty s.processed_offsets then (none, s) else checkpoint_at s.last_seen s
