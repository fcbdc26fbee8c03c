-- ===== src/Kafka/Delivery/History.antt =====
-- Whole histories of a source: what is committed along them.
use mathlib.Core.List.{append_assoc, append-nil}
use agora_etl_plugins.Common.{
  ℕ, ◌≡◌, inl, inr, refl, subst, Bool, true, false, List, [], ◌∷◌, ◌++◌, All, All-map, In,
  In-append_left, if◌then◌else◌, string_eq, nat_eq, pair_eq,
}
use agora_etl_plugins.Kafka.Cursor.{TopicPartition, remember_processed_offset}
use agora_etl_plugins.Kafka.Poison.{Dlq, Classification, Record, should_continue}
use agora_etl_plugins.Kafka.Delivery.{
  Source, Hook, commit_if_needed, emit_record, mark_emitted_offset, start_delivery, call_hooks,
  finish, clear_active_delivery,
}
use agora_etl_plugins.Kafka.Delivery.Poisoned.{
  handle_single_deserialize_error, handle_batch_deserialize_error, handle_partitions_revoked,
}
use agora_etl_plugins.Kafka.Delivery.Dropped.{single-Inv, batch-Inv, revoked-Inv}
use agora_etl_plugins.Kafka.Delivery.Safety.{
  Inv, Justified, Inv-grow, commit-Inv, call_hooks-Inv, finish-Inv,
}

-- What can happen to a source: a record goes out, and the pipeline calls its hooks and goes on or
-- stops; records cannot be deserialized; partitions are revoked; a checkpoint or the end of the
-- stream commits.
pub data Event : Type 0 where
  emits : Record → List Hook → Bool → Event
  fails_single : Classification → Record → Event
  fails_batch : Classification → List Record → Event
  revokes : List TopicPartition → Event
  commits : Bool → Event

-- The records that an event releases: one whose hook is called or that is handled to its end, and
-- those that a policy drops.
abbrev pub released_by : Event → Source → List Record
released_by (emits r [] true) s = []
released_by (emits r hooks failed) s = r ∷ []
released_by (fails_single class r) s = if should_continue s.poison.policy then r ∷ [] else []
released_by (fails_batch class rs) s = if should_continue s.poison.policy then rs else []
released_by (revokes ps) s = []
released_by (commits force) s = []

module _ (accepts : ℕ → Bool) (dlq : Dlq) where
  pub step : Event → Source → Source
  unfolding emit_record handle_single_deserialize_error handle_batch_deserialize_error
      handle_partitions_revoked
  step (emits r hooks failed) s = (emit_record accepts r hooks failed s).0
  step (fails_single class r) s = (handle_single_deserialize_error accepts dlq class r s).0
  step (fails_batch class rs) s = (handle_batch_deserialize_error accepts dlq class rs s).0
  step (revokes ps) s = (handle_partitions_revoked accepts dlq ps s).0
  step (commits force) s = (commit_if_needed accepts force s).0

  -- The source after a history, and the records released along it.
  pub run : List Event → Source → Source × List Record
  unfolding step
  run [] s = (s, [])
  run (e ∷ es) s = let (s', later) = run es (step e s) in (s', later ++ released_by e s)

  emitted-Inv :
      (released : List Record) (r : Record) (s : Source)
      → Inv released s
      → Inv released (start_delivery accepts r (mark_emitted_offset accepts r s)).1
  unfolding mark_emitted_offset start_delivery remember_processed_offset
  emitted-Inv released r s v = record {
    covered = v.covered;
    scoped = v.scoped;
    justified = v.justified;
  }

  emit-Inv :
      (released : List Record) (r : Record) (hooks : List Hook) (failed : Bool) (s : Source)
      → In r released
      → Inv released s
      → Inv released (emit_record accepts r hooks failed s).0
  unfolding emit_record start_delivery
  emit-Inv released r hooks failed s known v =
      let d = (start_delivery accepts r (mark_emitted_offset accepts r s)).0 in
      let s' = (start_delivery accepts r (mark_emitted_offset accepts r s)).1 in
      let out =
        call_hooks-Inv accepts released r known hooks d s' refl (emitted-Inv released r s v) in
      let (d'', s'', signal) = call_hooks accepts hooks d s' in
      finish-Inv accepts released r known failed d'' s'' signal out.1 out.0

  emit_dropped-Inv :
      (released : List Record) (r : Record) (s : Source)
      → Inv released s
      → Inv released (emit_record accepts r [] true s).0
  unfolding emit_record call_hooks finish clear_active_delivery start_delivery mark_emitted_offset
      remember_processed_offset
  emit_dropped-Inv released r s v = record {
    covered = v.covered;
    scoped = v.scoped;
    justified = v.justified;
  }

  All-In : (rs : List Record) → All (λ e. In e rs) rs
  All-In [] = tt
  All-In (r ∷ rs) = (inl refl, All-map _ _ (λ e i. inr i) rs (All-In rs))

  step-Inv :
      (released : List Record) (e : Event) (s : Source)
      → Inv released s
      → Inv (released_by e s ++ released) (step e s)
  unfolding step
  step-Inv released (emits r [] true) s v = emit_dropped-Inv released r s v
  step-Inv released (emits r [] false) s v =
      emit-Inv (r ∷ released) r [] false s (inl refl) (Inv-grow released (r ∷ []) s v)
  step-Inv released (emits r (h ∷ hooks) failed) s v =
      emit-Inv (r ∷ released) r (h ∷ hooks) failed s (inl refl) (Inv-grow released (r ∷ []) s v)
  step-Inv released (fails_single class r) s v =
      let new = released_by (fails_single class r) s in
      single-Inv accepts dlq (new ++ released) class r s
        (λ k. In-append_left r new released (rw k (inl refl))) (Inv-grow released new s v)
  step-Inv released (fails_batch class rs) s v =
      let new = released_by (fails_batch class rs) s in
      batch-Inv accepts dlq (new ++ released) class rs s
        (λ k. rw k (All-map _ _ (λ r. In-append_left r rs released) rs (All-In rs)))
        (Inv-grow released new s v)
  step-Inv released (revokes ps) s v = revoked-Inv accepts dlq released ps s v
  step-Inv released (commits force) s v = commit-Inv accepts released force s v

  run-Inv :
      (released : List Record) (es : List Event) (s : Source)
      → Inv released s
      → Inv ((run es s).1 ++ released) (run es s).0
  unfolding run
  run-Inv released [] s v = v
  run-Inv released (e ∷ es) s v =
      let later = (run es (step e s)).1 in
      rw (append_assoc later (released_by e s) released)
        (run-Inv (released_by e s ++ released) es (step e s) (step-Inv released e s v))

  -- Along any history of a source that begins with nothing committed and nothing to commit, each
  -- commit that the broker has taken names its offsets, and each of them is one past the offset of
  -- a record that was released: a hook of it was called, it was handled to its end, or a policy
  -- that continues dropped it.
  pub commits-released :
      (es : List Event) (s : Source)
      → s.commits ≡ []
      → s.cursor.committable_offsets ≡ []
      → s.cursor.pending_commit_count ≡ 0
      → All (Justified (run es s).1) (run es s).0.commits
  commits-released es s c o p =
      let v : Inv [] s = record { covered = rw o tt; scoped = inl p; justified = rw c tt } in
      subst (λ known. All (Justified known) (run es s).0.commits) (append-nil (run es s).1)
        (run-Inv [] es s v).justified
