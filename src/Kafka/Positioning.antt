-- ===== src/Kafka/Positioning.antt =====
-- kafka/sources/_consumer_runtime.py: `KafkaConsumerRuntime`, how a consumer gets its assignment and
-- its first positions. The runtime shares the cursor and the controls with the source; `_on_change`
-- and `_on_rebalance` are counted. Log lines are left out.
pub mod Applied
pub mod Resumed
pub mod Assigned
mod Tests
use agora_etl_plugins.Common.Dict
use agora_etl_plugins.Common.Dict.{Dict}
use agora_etl_plugins.Common.{
  ℕ, ◌+◌, String, Bool, true, false, not, ◌&&◌, ◌||◌, Option, none, some, List, [], ◌∷◌, map,
  if◌then◌else◌, string_eq, nat_eq, pair_eq, ◌==◌,
}
use agora_etl_plugins.Common.Sets.{is_nil, has, set_of}
use agora_etl_plugins.Kafka.Consumer.{Item, Methods, normalize_assignment_items, topic_partition}
use agora_etl_plugins.Kafka.Controls
use agora_etl_plugins.Kafka.Controls.{
  Controls, Outcome, done, refused, sync_active_assignment, set_active_assignment,
  apply_pause_state,
}
use agora_etl_plugins.Kafka.Cursor.{
  TopicPartition, Offsets, CursorState, is_empty, positioning_targets, has_exact_start_offsets,
  mark_positioning_applied,
}

pub record Runtime : Type 0 where
  pub assignments : List TopicPartition
  pub cursor : CursorState
  pub controls : Controls
  pub changes : ℕ
  pub rebalances : ℕ

abbrev on_controls : (Controls → Controls) → Runtime → Runtime
on_controls f r = record r { controls = f r.controls }

abbrev pub on_cursor : (CursorState → CursorState) → Runtime → Runtime
on_cursor f r = record r { cursor = f r.cursor }

-- Whether an item stands for a topic partition: a tuple without a topic is read by its places.
names_place : Option String → Option ℕ → TopicPartition → Bool
names_place topic none tp = false
names_place none (some p) tp = false
names_place (some t) (some p) (topic, partition) = t == topic && p == partition

names_item : Item → TopicPartition → Bool
unfolding names_place
names_item i tp = elim i.topic [
  | some t ↦ names_place (some t) i.partition tp
  | none ↦ elim i.places [
    | none ↦ names_place none i.partition tp
    | some (t, p) ↦ names_place t p tp
  ]
]

-- `_assignment_contains`
unfoldable pub assignment_contains : List Item → TopicPartition → Bool
unfolding names_item
assignment_contains [] tp = false
assignment_contains (i ∷ items) tp =
    let rest = assignment_contains items tp in if names_item i tp then true else rest

-- `_assignment_contains_all`
unfoldable pub assignment_contains_all : List Item → Offsets → Bool
unfolding assignment_contains
assignment_contains_all items [] = true
assignment_contains_all items ((tp, o) ∷ offsets) =
    assignment_contains items tp && assignment_contains_all items offsets

-- The offset that a consumer starts at: that of the start offsets, or the one after the last that
-- was processed.
abbrev pub start_offset : Bool → ℕ → ℕ
start_offset exact offset = if exact then offset else offset + 1

-- A target is left out where the consumer tells its assignment, and it is not in it.
unfoldable pub is_skipped : Option (List Item) → TopicPartition → Bool
is_skipped none tp = false
is_skipped (some assigned) tp = not (is_nil assigned) && not (assignment_contains assigned tp)

module _ {S : Type 0} where
  -- `getmany(timeout_ms=0, max_records=1)`, whose exceptions are suppressed.
  unfoldable pub poll : Methods S → S → S
  poll methods s = elim methods.getmany [ none ↦ s | some getmany ↦ getmany s ]

  -- `assign`, where the consumer has it.
  unfoldable pub bind_consumer : Option (List TopicPartition → S → S) → Runtime → S → Runtime × S
  unfolding set_active_assignment
  bind_consumer assign r s = elim r.assignments [
    | [] ↦ (r, s)
    | tp ∷ tps ↦ elim assign [
      | none ↦ (r, s)
      | some method ↦
          (on_controls (set_active_assignment (set_of r.assignments)) r, method r.assignments s)
    ]
  ]

  refreshed : Methods S → (S → List Item) → Bool → S → S
  unfolding poll
  refreshed methods assignment bootstrap s =
      let polled = poll methods s in if is_nil (assignment s) && bootstrap then polled else s

  pub refresh_assignment_state : Option (Methods S) → Bool → Runtime → S → Runtime × S
  unfolding refreshed sync_active_assignment
  refresh_assignment_state none bootstrap r s = (r, s)
  refresh_assignment_state (some methods) bootstrap r s = elim methods.assignment [
    | none ↦ (r, s)
    | some assignment ↦
        let s' = refreshed methods assignment bootstrap s in
        (on_controls (sync_active_assignment (some (assignment s'))) r, s')
  ]

  unfoldable pub sync_assignment_from_consumer : Option (Methods S) → Runtime → S → Runtime
  unfolding sync_active_assignment
  sync_assignment_from_consumer none r s = r
  sync_assignment_from_consumer (some methods) r s = elim methods.assignment [
    | none ↦ r
    | some assignment ↦ on_controls (sync_active_assignment (some (assignment s))) r
  ]

  -- `partitions` are those of the listener's call.
  unfoldable pub handle_partitions_assigned :
      Option (Methods S) → List Item → Runtime → S → Runtime × S × Outcome
  unfolding sync_active_assignment apply_pause_state
  handle_partitions_assigned consumer partitions r s =
      let r' = record r {
        rebalances = r.rebalances + 1;
        controls = sync_active_assignment (some partitions) r.controls;
      } in
      let (s', outcome) =
        apply_pause_state consumer (some (normalize_assignment_items partitions)) r'.controls s in
      (r', s', outcome)

  sought : S → Option S → S × Outcome
  sought s none = (s, refused)
  sought s (some s') = (s', done)

  -- What follows a seek that may raise.
  and_then : S × Outcome → (S → S × Outcome) → S × Outcome
  and_then (s, done) next = next s
  and_then (s, outcome) next = (s, outcome)

  -- The loop over the targets.
  pub seek_each :
      (TopicPartition → ℕ → S → Option S) → Bool → Option (List Item) → Offsets → S → S × Outcome
  unfolding sought and_then is_skipped
  seek_each seek exact assigned [] s = (s, done)
  seek_each seek exact assigned ((tp, o) ∷ targets) s =
      let here =
        if is_skipped assigned tp then (s, done) else sought s (seek tp (start_offset exact o) s) in
      and_then here (seek_each seek exact assigned targets)

  -- The assignment that the loop goes by, with a poll where a target is not in it.
  located :
      Option (S → List Item) → Methods S → Offsets → Runtime → S → Option (List Item) × Runtime × S
  unfolding poll assignment_contains_all sync_active_assignment
  located none methods targets r s = (none, r, s)
  located (some assignment) methods targets r s =
      let s' = poll methods s in
      if assignment_contains_all (assignment s) targets
      then (some (assignment s), r, s)
      else (some (assignment s'), on_controls (sync_active_assignment (some (assignment s'))) r, s')

  -- After the loop.
  pub positioned : Runtime → S × Outcome → Runtime × S × Outcome
  unfolding mark_positioning_applied
  positioned r (s, done) =
      (record (on_cursor mark_positioning_applied r) { changes = r.changes + 1 }, s, done)
  positioned r (s, outcome) = (r, s, outcome)

  seek_from :
      Option (TopicPartition → ℕ → S → Option S)
      → Offsets
      → Option (List Item) × Runtime × S
      → Runtime × S × Outcome
  unfolding seek_each positioned mark_positioning_applied has_exact_start_offsets
  seek_from none targets (assigned, r, s) = (on_cursor mark_positioning_applied r, s, done)
  seek_from (some seek) targets (assigned, r, s) =
      positioned r (seek_each seek (has_exact_start_offsets r.cursor) assigned targets s)

  seek_targets : Methods S → Offsets → Runtime → S → Runtime × S × Outcome
  unfolding located seek_from
  seek_targets methods targets r s =
      seek_from methods.seek targets (located methods.assignment methods targets r s)

  unfoldable pub apply_initial_positioning :
      Option (Methods S) → Runtime → S → Runtime × S × Outcome
  unfolding seek_targets mark_positioning_applied positioning_targets
  apply_initial_positioning none r s = (r, s, done)
  apply_initial_positioning (some methods) r s =
      let targets = positioning_targets r.cursor in
      if r.cursor.positioning_applied
      then (r, s, done)
      else if is_empty targets
      then (on_cursor mark_positioning_applied r, s, done)
      else seek_targets methods targets r s

  paused_after : Option (Methods S) → Runtime × S × Outcome → Runtime × S × Outcome
  unfolding apply_pause_state
  paused_after consumer (r, s, done) =
      let (s', outcome) = apply_pause_state consumer none r.controls s in (r, s', outcome)
  paused_after consumer (r, s, outcome) = (r, s, outcome)

  unfoldable pub bootstrap_consumer_state : Option (Methods S) → Runtime → S → Runtime × S × Outcome
  unfolding refresh_assignment_state apply_initial_positioning paused_after
  bootstrap_consumer_state consumer r s =
      let (r', s') = refresh_assignment_state consumer true r s in
      paused_after consumer (apply_initial_positioning consumer r' s')
