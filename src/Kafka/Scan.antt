-- ===== src/Kafka/Scan.antt =====
-- kafka/_dlq_source_scan_runtime.py: `KafkaDLQSourceScanRuntime`, which reads the dead letters that
-- are still there. The consumer, `decode_envelope` and the compaction's codec and table are other
-- code; of the consumer a call of `position` does not raise. `messages` is a history variable: the
-- messages that were scanned. The generator is followed to its end; times are left out.
pub mod Assignment
pub mod Scanned
pub mod Turns
pub mod Assigned
pub mod Yielded
pub mod Ended
mod Tests
use agora_etl_plugins.Common.Dict.{Dict}
use agora_etl_plugins.Common.Sets.{is_nil}
use agora_etl_plugins.Common.Sort.{sort}
use agora_etl_plugins.Common.{
  ℕ, zero, suc, ◌+◌, String, Bool, true, false, not, ◌&&◌, ◌||◌, Option, none, some, List, [], ◌∷◌,
  ◌++◌, if◌then◌else◌, ltb, leb, length, string_eq, ◌==◌,
}
use agora_etl_plugins.Kafka.Compaction
use agora_etl_plugins.Kafka.Compaction.{State, initial, live_records}
use agora_etl_plugins.Kafka.Scan.Assignment.{
  Source, Setup, wait_for_assignment, apply_start_offsets, partition_highwater_offsets,
  positions_reached_highwater,
}

-- The variables of the loop.
pub record Loop (P M Rec Db : Type 0) : Type 0 where
  pub source : Source P M
  pub compaction : State Rec Db
  pub sequence : ℕ
  pub messages : List M

-- How a turn of the loop ends, and how the loop does.
pub data Turn (P M Rec Db S : Type 0) : Type 0 where
  failed : Turn P M Rec Db S
  stop : Loop P M Rec Db → S → Turn P M Rec Db S
  more : ℕ → Loop P M Rec Db → S → Turn P M Rec Db S

pub data Scan (P M Rec Db S : Type 0) : Type 0 where
  no_fuel raised : Scan P M Rec Db S
  ended : Loop P M Rec Db → S → Scan P M Rec Db S

-- The records that were yielded, with the source afterwards.
pub data Outcome (P M Rec : Type 0) : Type 0 where
  running scan_raised : Outcome P M Rec
  yields : Source P M → List Rec → Outcome P M Rec

abbrev pub is_delete : String → Bool
is_delete operation = operation == "delete"

abbrev pub contents_of : {Rec : Type 0} → String × String × Option Rec → Option Rec
contents_of (operation, storage_key, contents) = if is_delete operation then none else contents

-- What a statement that may raise is followed by.
abbrev pub and_then : {A : Type 0} → Option A → (A → Option A) → Option A
and_then none next = none
and_then (some a) next = next a

-- Some batch has messages.
unfoldable pub non_empty : {M : Type 0} → List (List M) → Bool
non_empty [] = false
non_empty (messages ∷ batches) = not (is_nil messages) || non_empty batches

abbrev pub has_reached : Option ℕ → ℕ → Bool
has_reached none yielded = false
has_reached (some limit) yielded = leb limit yielded

abbrev pub is_wanted : Option String → String → Bool
is_wanted none actual = true
is_wanted (some expected) actual = actual == expected

module _ {P M Rec Payload Text Db S : Type 0} (u : Setup P M Rec Payload Text Db S) where
  open u use {codec, table, client, place_leb, decode_envelope, pipeline_of, stage_of}

  count_event : Bool → Source P M → Source P M
  count_event true k = record k {
    scanned_message_count = k.scanned_message_count + 1;
    delete_event_count = k.delete_event_count + 1;
  }
  count_event false k = record k {
    scanned_message_count = k.scanned_message_count + 1;
    upsert_event_count = k.upsert_event_count + 1;
  }

  decoded : M → Loop P M Rec Db → Option (String × String × Option Rec) → Option (Loop P M Rec Db)
  unfolding count_event
  decoded m l none = none
  decoded m l (some d) = some (record {
    source = count_event (is_delete d.0) l.source;
    compaction = Compaction.update codec table l.sequence d.1 (contents_of d) l.compaction;
    sequence = l.sequence + 1;
    messages = l.messages ++ (m ∷ []);
  })

  unfoldable pub scan_message : M → Loop P M Rec Db → Option (Loop P M Rec Db)
  unfolding decoded
  scan_message m l = decoded m l (decode_envelope m)

  unfoldable pub scan_messages : List M → Loop P M Rec Db → Option (Loop P M Rec Db)
  unfolding scan_message
  scan_messages [] l = some l
  scan_messages (m ∷ messages) l = and_then (scan_message m l) (scan_messages messages)

  unfoldable pub scan_batches : List (List M) → Loop P M Rec Db → Option (Loop P M Rec Db)
  unfolding scan_messages
  scan_batches [] l = some l
  scan_batches (messages ∷ batches) l = and_then (scan_messages messages l) (scan_batches batches)

  -- The batches of a turn: those that were waited for, or what the consumer has.
  next_batches :
      List (List (List M)) → Loop P M Rec Db → S → Option (Loop P M Rec Db × S × List (List M))
  next_batches [] l s = elim (client.getmany s) [
    | none ↦ none
    | some (s', batches) ↦ some (l, s', batches)
  ]
  next_batches (batches ∷ rest) l s =
      some
        (record l { source = record l.source { assignment_prefetch_batches = rest } }, s, batches)

  -- The end of a turn: does the loop stop at the highwater marks?
  after_scan : ℕ → Bool → List (P × ℕ) → S → Option (Loop P M Rec Db) → Turn P M Rec Db S
  after_scan idle_polls has_messages highwater s none = failed
  after_scan idle_polls has_messages highwater s (some l) =
      if not (is_nil highwater) && positions_reached_highwater u highwater s
      then stop
          (record l {
            source = record l.source { highwater_stop_count = l.source.highwater_stop_count + 1 };
          })
          s
      else more (if has_messages then 0 else idle_polls + 1) l s

  after_poll : ℕ → List (P × ℕ) → Option (Loop P M Rec Db × S × List (List M)) → Turn P M Rec Db S
  unfolding after_scan scan_batches non_empty
  after_poll idle_polls highwater none = failed
  after_poll idle_polls highwater (some (l, s, batches)) =
      after_scan idle_polls (non_empty batches) highwater s (scan_batches batches l)

  unfoldable pub turn : ℕ → List (P × ℕ) → Loop P M Rec Db → S → Turn P M Rec Db S
  unfolding after_poll next_batches
  turn idle_polls highwater l s =
      after_poll idle_polls highwater (next_batches l.source.assignment_prefetch_batches l s)

  unfoldable pub follow :
      Turn P M Rec Db S → (ℕ → Loop P M Rec Db → S → Scan P M Rec Db S) → Scan P M Rec Db S
  follow failed next = raised
  follow (stop l s) next = ended l s
  follow (more idle_polls l s) next = next idle_polls l s

  -- The loop, on fuel.
  unfoldable pub scan_loop : ℕ → List (P × ℕ) → ℕ → ℕ → Loop P M Rec Db → S → Scan P M Rec Db S
  unfolding follow turn
  scan_loop zero highwater limit_polls idle_polls l s = no_fuel
  scan_loop (suc n) highwater limit_polls idle_polls l s =
      let rest = follow (turn idle_polls highwater l s) (scan_loop n highwater limit_polls) in
      if ltb idle_polls limit_polls then rest else ended l s

  unfoldable pub matches : Source P M → Rec → Bool
  matches k r = is_wanted k.pipeline_id (pipeline_of r) && is_wanted k.stage (stage_of r)

  abbrev yield_first : Rec → Source P M × List Rec → Source P M × List Rec
  yield_first r (k, records) = (k, r ∷ records)

  unfoldable pub yield_records : List (ℕ × Rec) → ℕ → Source P M → Source P M × List Rec
  unfolding matches
  yield_records [] yielded k = (k, [])
  yield_records ((n, r) ∷ live) yielded k =
      let k' = record k { matched_record_count = k.matched_record_count + 1 } in
      let rest = yield_first r (yield_records live (yielded + 1) k') in
      let skip = yield_records live yielded k in
      if matches k r
      then (if has_reached k.limit (yielded + 1) then (k', r ∷ []) else rest)
      else skip

  yield_live : Source P M → Option (List (ℕ × Rec)) → Outcome P M Rec
  unfolding yield_records
  yield_live k none = scan_raised
  yield_live k (some live) =
      let k' = record k {
        scan_count = k.scan_count + 1;
        live_record_count = length live;
        matched_record_count = 0;
      } in
      let (k'', records) = yield_records live 0 k' in yields k'' records

  unfoldable pub yield_after : Scan P M Rec Db S → Outcome P M Rec
  unfolding yield_live
  yield_after no_fuel = running
  yield_after raised = scan_raised
  yield_after (ended l s) = yield_live l.source (live_records codec table l.compaction)

  -- The scan of an assignment.
  unfoldable pub start_loop : Source P M → Loop P M Rec Db
  start_loop k = record {
    source = k;
    compaction = initial k.compaction_spill_threshold;
    sequence = 0;
    messages = [];
  }

  after_seek : ℕ → List P → Option (Source P M × S) → Outcome P M Rec
  unfolding yield_after scan_loop start_loop
  after_seek fuel assignment none = scan_raised
  after_seek fuel assignment (some (k, s)) = yield_after (
      scan_loop fuel (partition_highwater_offsets u k assignment s) k.scan_idle_polls 0
        (start_loop k) s)

  after_wait : ℕ → Option (Source P M × S × List P) → Outcome P M Rec
  unfolding after_seek apply_start_offsets
  after_wait fuel none = scan_raised
  after_wait fuel (some (k, s, assignment)) =
      if is_nil assignment
      then yields (record k { scan_count = k.scan_count + 1 }) []
      else after_seek fuel assignment (apply_start_offsets u k s)

  unfoldable pub iter_records : ℕ → Source P M → S → Outcome P M Rec
  unfolding after_wait wait_for_assignment
  iter_records fuel k s = after_wait fuel (wait_for_assignment u k s)
