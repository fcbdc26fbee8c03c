-- ===== src/Kafka/Cursor/Checkpoints.antt =====
-- The checkpoint cache: whatever was done to the cursor, `current_checkpoint` is what a
-- recomputation gives.
use mathlib.Core.Option
use mathlib.Core.List.{Perm}
use agora_etl_plugins.Common.Sort.{sort-perm}
use agora_etl_plugins.Common.{
  ℕ, zero, ◌≡◌, Bool, false, List, [], ◌∷◌, Option, none, some, arith, if◌then◌else◌,
}
use agora_etl_plugins.Kafka.Cursor.{
  TopicPartition, Offsets, Checkpoint, CursorState, init, is_empty, sorted_items, item_leb,
  set_start_offsets, set_resume_offsets, set_processed_offsets, set_committable_offsets,
  set_pending_commit_count, set_positioning_applied, set_last_seen, discard_tracking_state,
  reset_for_stream, prepare_resume, mark_positioning_applied, apply_exact_positioning,
  clear_positioning_targets, remember_processed_offset, remember_committable_offset,
  increment_pending_commit_count, clear_pending_commit_count, mark_delivered_message,
  mark_transaction_committed, drop_revoked, build_checkpoint, refresh_checkpoint, cached_checkpoint,
  current_checkpoint,
}

-- The checkpoint without a cache.
abbrev pub fresh_checkpoint : CursorState → Option Checkpoint
fresh_checkpoint s =
    if is_empty s.processed_offsets
    then none
    else Option.map (λ seen. build_checkpoint seen s.processed_offsets) s.last_seen

-- What can be done to the cursor: every method that changes it.
pub data Call : Type 0 where
  sets_start sets_resume sets_processed sets_committable prepares_resume applies_exact :
      Offsets → Call
  sets_last_seen : Option (TopicPartition × ℕ) → Call
  sets_pending : ℕ → Call
  sets_positioned : Bool → Call
  discards resets marks_positioned clears_targets clears_pending asks_checkpoint : Call
  remembers_processed remembers_committable commits_transaction : TopicPartition → ℕ → Call
  increments : ℕ → Call
  marks_delivered : TopicPartition → ℕ → Bool → Call
  drops : List TopicPartition → Call

pub perform : Call → CursorState → CursorState
perform (sets_start d) = set_start_offsets d
perform (sets_resume d) = set_resume_offsets d
perform (sets_processed d) = set_processed_offsets d
perform (sets_committable d) = set_committable_offsets d
perform (prepares_resume d) = prepare_resume d
perform (applies_exact d) = apply_exact_positioning d
perform (sets_last_seen v) = set_last_seen v
perform (sets_pending n) = set_pending_commit_count n
perform (sets_positioned b) = set_positioning_applied b
perform discards = discard_tracking_state
perform resets = reset_for_stream
perform marks_positioned = mark_positioning_applied
perform clears_targets = clear_positioning_targets
perform clears_pending = clear_pending_commit_count
perform asks_checkpoint = λ s. (current_checkpoint s).1
perform (remembers_processed tp o) = remember_processed_offset tp o
perform (remembers_committable tp o) = remember_committable_offset tp o
perform (commits_transaction tp o) = mark_transaction_committed tp o
perform (increments n) = increment_pending_commit_count n
perform (marks_delivered tp o auto) = mark_delivered_message tp o auto
perform (drops revoked) = drop_revoked revoked

pub perform_all : List Call → CursorState → CursorState
perform_all [] s = s
perform_all (c ∷ cs) s = perform_all cs (perform c s)

-- A cache that is not marked dirty holds what a recomputation gives.
abbrev Agrees : Option Checkpoint → Bool → Option Checkpoint → Type 0
Agrees (some c) false fresh = fresh ≡ some c
Agrees _ _ fresh = Unit

abbrev IsCached : CursorState → Type 0
IsCached s = Agrees s.checkpoint_cache s.checkpoint_dirty (fresh_checkpoint s)

current-eq-fresh : (s : CursorState) → IsCached s → (current_checkpoint s).0 ≡ fresh_checkpoint s
unfolding current_checkpoint cached_checkpoint refresh_checkpoint
current-eq-fresh s h = ground arith

current-IsCached : (s : CursorState) → IsCached s → IsCached (current_checkpoint s).1
unfolding current_checkpoint cached_checkpoint refresh_checkpoint
current-IsCached s h = ground arith

perform-IsCached : (call : Call) (s : CursorState) → IsCached s → IsCached (perform call s)
unfolding perform set_start_offsets set_resume_offsets set_processed_offsets set_committable_offsets
    set_last_seen discard_tracking_state reset_for_stream prepare_resume mark_positioning_applied
    apply_exact_positioning clear_positioning_targets mark_delivered_message
    mark_transaction_committed drop_revoked set_pending_commit_count set_positioning_applied
perform-IsCached asks_checkpoint s h = current-IsCached s h
perform-IsCached (increments zero) s h = h
perform-IsCached _ s h = ground arith

perform_all-IsCached :
    (calls : List Call) (s : CursorState) → IsCached s → IsCached (perform_all calls s)
unfolding perform_all
perform_all-IsCached [] s h = h
perform_all-IsCached (c ∷ cs) s h = perform_all-IsCached cs (perform c s) (perform-IsCached c s h)

-- After any calls on a new cursor the checkpoint that is returned, cached or not, is the one that
-- the last record seen and the processed offsets give.
pub current_checkpoint-eq-fresh :
    (start : Offsets) (calls : List Call)
    → (current_checkpoint (perform_all calls (init start))).0
      ≡ fresh_checkpoint (perform_all calls (init start))
current_checkpoint-eq-fresh start calls =
    current-eq-fresh (perform_all calls (init start)) (perform_all-IsCached calls (init start) tt)

fresh-perm :
    (seen : TopicPartition × ℕ) (processed : Offsets)
    → Perm (build_checkpoint seen processed).offsets processed
unfolding build_checkpoint sorted_items
fresh-perm seen processed = sort-perm item_leb processed
