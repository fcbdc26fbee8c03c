-- ===== src/Kafka/Scan/Assignment.antt =====
-- kafka/_dlq_source_scan_runtime.py: the settings and counts of the source, its consumer, and what is
-- done before the loop of a scan: the wait for an assignment, the start offsets, the highwater marks.
use agora_etl_plugins.Common.Dict.{Dict}
use agora_etl_plugins.Common.Sets.{is_nil}
use agora_etl_plugins.Common.Sort.{sort}
use agora_etl_plugins.Common.{
  ℕ, zero, suc, ◌+◌, String, Bool, true, false, not, ◌&&◌, Option, none, some, List, [], ◌∷◌, ◌++◌,
  if◌then◌else◌, ltb, string_eq,
}
use agora_etl_plugins.Kafka.Compaction.{Codec, Table}

pub record Source (P M : Type 0) : Type 0 where
  pub scan_idle_polls : ℕ
  pub start_offsets : Dict P ℕ
  pub stop_at_highwater : Bool
  pub pipeline_id : Option String
  pub stage : Option String
  pub limit : Option ℕ
  pub compaction_spill_threshold : Option ℕ
  pub assignment_prefetch_batches : List (List (List M))
  pub scan_count : ℕ
  pub scanned_message_count : ℕ
  pub delete_event_count : ℕ
  pub upsert_event_count : ℕ
  pub live_record_count : ℕ
  pub matched_record_count : ℕ
  pub highwater_stop_count : ℕ
  pub start_offset_seek_count : ℕ

-- The calls of the consumer, none where a call raises. `seek`, `end_offsets` and `position` may be
-- missing; an offset that is no number is none.
pub record Client (P M S : Type 0) : Type 0 where
  pub assignment : S → List P
  pub getmany : S → Option (S × List (List M))
  pub seek : Option (P → ℕ → S → Option S)
  pub end_offsets : List P → S → Option (List (P × Option ℕ))
  pub position : Option (P → S → Option ℕ)

-- What the scan was given: the compaction's codec and table, the consumer, the order of partitions,
-- `decode_envelope`, and the fields by which records are chosen.
pub record Setup (P M Rec Payload Text Db S : Type 0) : Type 0 where
  pub codec : Codec Rec Payload Text
  pub table : Table Db Text
  pub client : Client P M S
  pub place_leb : P × ℕ → P × ℕ → Bool
  pub decode_envelope : M → Option (String × String × Option Rec)
  pub pipeline_of : Rec → String
  pub stage_of : Rec → String

module _ {P M Rec Payload Text Db S : Type 0} (u : Setup P M Rec Payload Text Db S) where
  open u use {client, place_leb}

  unfoldable pub with_prefetch : List (List M) → Source P M → Source P M
  with_prefetch batches k = if is_nil batches then k else record k {
    assignment_prefetch_batches = k.assignment_prefetch_batches ++ (batches ∷ []);
  }

  unfoldable pub waited :
      Source P M
      → Option (S × List (List M))
      → (Source P M → S → Option (Source P M × S × List P))
      → Option (Source P M × S × List P)
  unfolding with_prefetch
  waited k none next = none
  waited k (some (s, batches)) next = next (with_prefetch batches k) s

  unfoldable pub wait_turns : ℕ → Source P M → S → Option (Source P M × S × List P)
  unfolding waited
  wait_turns zero k s = some (k, s, [])
  wait_turns (suc n) k s =
      let again = waited k (client.getmany s) (wait_turns n) in
      if is_nil (client.assignment s) then again else some (k, s, client.assignment s)

  unfoldable pub wait_for_assignment : Source P M → S → Option (Source P M × S × List P)
  unfolding wait_turns
  wait_for_assignment k s = wait_turns 20 (record k { assignment_prefetch_batches = [] }) s

  unfoldable pub sought : Option S → (S → Option (Source P M × S)) → Option (Source P M × S)
  sought none next = none
  sought (some s) next = next s

  unfoldable pub seek_each :
      (P → ℕ → S → Option S) → Dict P ℕ → Source P M → S → Option (Source P M × S)
  unfolding sought
  seek_each seek [] k s = some (k, s)
  seek_each seek ((p, offset) ∷ offsets) k s = sought (seek p offset s) (
      seek_each seek offsets (record k { start_offset_seek_count = k.start_offset_seek_count + 1 }))

  unfoldable pub seek_with :
      Option (P → ℕ → S → Option S) → Source P M → S → Option (Source P M × S)
  unfolding seek_each
  seek_with none k s = some (k, s)
  seek_with (some seek) k s = seek_each seek (sort place_leb k.start_offsets) k s

  unfoldable pub apply_start_offsets : Source P M → S → Option (Source P M × S)
  unfolding seek_with
  apply_start_offsets k s =
      if is_nil k.start_offsets then some (k, s) else seek_with client.seek k s

  numbers : List (P × Option ℕ) → List (P × ℕ)
  numbers [] = []
  numbers ((p, none) ∷ offsets) = numbers offsets
  numbers ((p, some n) ∷ offsets) = (p, n) ∷ numbers offsets

  or_no_offsets : Option (List (P × Option ℕ)) → List (P × ℕ)
  unfolding numbers
  or_no_offsets none = []
  or_no_offsets (some offsets) = numbers offsets

  unfoldable pub partition_highwater_offsets : Source P M → List P → S → List (P × ℕ)
  unfolding or_no_offsets
  partition_highwater_offsets k assignment s =
      if k.stop_at_highwater then or_no_offsets (client.end_offsets assignment s) else []

  abbrev at_least : Option ℕ → ℕ → Bool
  at_least none highwater = false
  at_least (some current) highwater = not (ltb current highwater)

  all_reached : (P → S → Option ℕ) → List (P × ℕ) → S → Bool
  all_reached position [] s = true
  all_reached position ((p, highwater) ∷ offsets) s =
      at_least (position p s) highwater && all_reached position offsets s

  reached_with : Option (P → S → Option ℕ) → List (P × ℕ) → S → Bool
  unfolding all_reached
  reached_with none offsets s = false
  reached_with (some position) offsets s = all_reached position offsets s

  unfoldable pub positions_reached_highwater : List (P × ℕ) → S → Bool
  unfolding reached_with
  positions_reached_highwater offsets s = reached_with client.position offsets s
