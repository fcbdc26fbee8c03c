-- ===== src/Kafka/Controls.antt =====
-- kafka/sources/_operator_controls.py: `KafkaOperatorController`, the partitions that a source is
-- assigned and those that an operator has paused. `_on_change` is counted in `changes`. The sets of
-- the code are lists read by `has`.
pub mod Calls
pub mod Paused
pub mod History
mod Tests
use agora_etl_plugins.Common.{
  ℕ, ◌+◌, String, Bool, true, false, not, Option, none, some, List, [], ◌∷◌, if◌then◌else◌, leb,
  string_eq, nat_eq, pair_eq, ◌==◌, length,
}
use agora_etl_plugins.Common.Sets.{
  is_nil, has, set_of, union, difference, intersection, is_subset, same_set,
}
use agora_etl_plugins.Common.Sort.{sort, codes, codes_leb}
use agora_etl_plugins.Kafka.Cursor.{TopicPartition}
use agora_etl_plugins.Kafka.Consumer.{Item, Methods, normalize_assignment_items}

pub record Controls : Type 0 where
  pub active_assignment : List TopicPartition
  pub paused_partitions : List TopicPartition
  pub pause_all_requested : Bool
  pub changes : ℕ

abbrev pub on_change : Controls → Controls
on_change c = record c { changes = c.changes + 1 }

-- How an operation ends: `ValueError`, `RuntimeError`, `TypeError`, or what the consumer raised.
pub data Outcome : Type 0 where
  done unassigned_targets no_active_assignment unsupported refused : Outcome

abbrev pub controller : List TopicPartition → Controls
controller assignments = record {
  active_assignment = set_of assignments;
  paused_partitions = [];
  pause_all_requested = false;
  changes = 0;
}

unfoldable pub set_active_assignment : List TopicPartition → Controls → Controls
set_active_assignment assignments c =
    on_change (record c { active_assignment = set_of assignments })

unfoldable pub set_paused_partitions : List TopicPartition → Controls → Controls
set_paused_partitions partitions c = on_change (record c { paused_partitions = set_of partitions })

unfoldable pub set_pause_all_requested : Bool → Controls → Controls
set_pause_all_requested value c = on_change (record c { pause_all_requested = value })

-- The active assignment itself is normalised when no other is given.
unfoldable pub assignment_from : Option (List Item) → Controls → List TopicPartition
assignment_from none c = set_of c.active_assignment
assignment_from (some items) c = set_of (normalize_assignment_items items)

unfoldable pub sync_active_assignment : Option (List Item) → Controls → Controls
sync_active_assignment items c =
    let normalized = assignment_from items c in
    if same_set normalized c.active_assignment
    then c
    else on_change (record c { active_assignment = normalized })

unfoldable pub drop_revoked : List TopicPartition → Controls → Controls
drop_revoked revoked c =
    if is_nil revoked
    then c
    else on_change (record c {
      paused_partitions = difference c.paused_partitions revoked;
      active_assignment = difference c.active_assignment revoked;
    })

unfoldable pub paused_partition_count : Controls → ℕ
paused_partition_count c =
    if c.pause_all_requested then length c.active_assignment else length c.paused_partitions

-- `raise ValueError` unless every target is assigned.
unfoldable pub validate_assigned_partitions : List TopicPartition → Controls → Outcome
validate_assigned_partitions targets c =
    if is_nil (difference targets c.active_assignment) then done else unassigned_targets

unfoldable pub resolve_seek_targets :
    Option (List TopicPartition) → Controls → List TopicPartition × Outcome
unfolding validate_assigned_partitions
resolve_seek_targets none c =
    if is_nil c.active_assignment then ([], no_active_assignment) else (c.active_assignment, done)
resolve_seek_targets (some partitions) c =
    let targets = set_of partitions in (targets, validate_assigned_partitions targets c)

-- The order of `sorted(targets)`.
pub place_leb : TopicPartition → TopicPartition → Bool
place_leb (t, p) (u, q) = if t == u then leb p q else codes_leb (codes t) (codes u)

-- `targets` limited to what was requested, when that is anything.
unfoldable pub limit_to : Option (List TopicPartition) → List TopicPartition → List TopicPartition
limit_to none targets = targets
limit_to (some requested) targets =
    if is_nil requested then targets else intersection targets requested

pub resume_targets : Option (List TopicPartition) → Controls → List TopicPartition
resume_targets none c = c.active_assignment
resume_targets (some partitions) c = set_of partitions

-- `targets if targets else None`
abbrev pub or_none : List TopicPartition → Option (List TopicPartition)
or_none [] = none
or_none (t ∷ targets) = some (t ∷ targets)

-- `self._paused_partitions or self._active_assignment`
abbrev pub or_active : List TopicPartition → List TopicPartition → List TopicPartition
or_active paused active = if is_nil paused then active else paused

-- The controls once the targets are no longer asked to be paused.
unfoldable pub release : List TopicPartition → Controls → Controls
release targets c =
    if c.pause_all_requested
    then record c {
      pause_all_requested = false;
      paused_partitions = difference (difference c.active_assignment targets) targets;
    }
    else record c { paused_partitions = difference c.paused_partitions targets }

module _ {S : Type 0} where
  pub settle : S → Option S → S × Outcome
  settle s none = (s, refused)
  settle s (some s') = (s', done)

  call_with : (List TopicPartition → S → Option S) → List TopicPartition → S → S × Outcome
  unfolding settle
  call_with method [] s = (s, done)
  call_with method (t ∷ targets) s = settle s (method (sort place_leb (t ∷ targets)) s)

  -- A method that the consumer may lack, called on the sorted targets unless there are none.
  pub call : Option (List TopicPartition → S → Option S) → List TopicPartition → S → S × Outcome
  unfolding call_with
  call none targets s = (s, done)
  call (some method) targets s = call_with method targets s

  abbrev pub pause_method : Option (Methods S) → Option (List TopicPartition → S → Option S)
  pause_method none = none
  pause_method (some methods) = methods.pause

  abbrev pub resume_method : Option (Methods S) → Option (List TopicPartition → S → Option S)
  resume_method none = none
  resume_method (some methods) = methods.resume

  unfoldable pub apply_pause_state :
      Option (Methods S) → Option (List TopicPartition) → Controls → S → S × Outcome
  unfolding call limit_to
  apply_pause_state consumer partitions c s =
      call (pause_method consumer)
        (limit_to partitions
          (if c.pause_all_requested then c.active_assignment else c.paused_partitions))
        s

  unfoldable pub apply_resume_state :
      Option (Methods S) → Option (List TopicPartition) → Controls → S → S × Outcome
  unfolding call resume_targets
  apply_resume_state consumer partitions c s =
      call (resume_method consumer) (resume_targets partitions c) s

  -- `self._on_change()`, unless what came before it raised.
  pub finish : Controls → S × Outcome → Controls × S × Outcome
  finish c (s, done) = (on_change c, s, done)
  finish c (s, outcome) = (c, s, outcome)

  -- What follows a check that may raise.
  pub guarded : Outcome → Controls × S × Outcome → Controls → S → Controls × S × Outcome
  guarded done next c s = next
  guarded outcome next c s = (c, s, outcome)

  pause_targets : Option (Methods S) → List TopicPartition → Controls → S → Controls × S × Outcome
  unfolding finish apply_pause_state
  pause_targets consumer targets c s =
      let c' = record c { paused_partitions = union c.paused_partitions targets } in
      finish c' (apply_pause_state consumer (or_none targets) c' s)

  unfoldable pub pause :
      Option (Methods S) → Option (List TopicPartition) → Controls → S → Controls × S × Outcome
  unfolding guarded pause_targets validate_assigned_partitions
  pause consumer none c s =
      pause_targets consumer c.active_assignment (record c { pause_all_requested = true }) s
  pause consumer (some partitions) c s =
      let targets = set_of partitions in
      guarded (validate_assigned_partitions targets c) (pause_targets consumer targets c s) c s

  unfoldable pub resume :
      Option (Methods S) → Option (List TopicPartition) → Controls → S → Controls × S × Outcome
  unfolding guarded finish apply_resume_state validate_assigned_partitions release
  resume consumer none c s =
      let targets = or_active c.paused_partitions c.active_assignment in
      let c' = record c { pause_all_requested = false; paused_partitions = [] } in
      finish c' (apply_resume_state consumer (or_none targets) c' s)
  resume consumer (some partitions) c s =
      let targets = set_of partitions in
      let c' = release targets c in
      guarded (validate_assigned_partitions targets c)
        (finish c' (apply_resume_state consumer (or_none targets) c' s)) c s

  -- `seek_to_beginning`, `seek_to_end` or another method of that kind, by its name.
  unfoldable pub seek_with_consumer_method :
      Option (List TopicPartition → S → Option S)
      → Option (List TopicPartition)
      → Controls
      → S
      → S × Outcome
  unfolding resolve_seek_targets settle
  seek_with_consumer_method method partitions c s =
      let (targets, outcome) = resolve_seek_targets partitions c in
      elim outcome [
        | done ↦ elim method [
          | none ↦ (s, unsupported)
          | some seek ↦ settle s (seek (sort place_leb targets) s)
        ]
        | other ↦ (s, other)
      ]
