-- ===== src/Kafka/Positioning/Resumed.antt =====
-- The positions of a consumer whose partitions are assigned, after `apply_initial_positioning`.
use agora_etl_plugins.Common.Dict
use agora_etl_plugins.Common.Dict.{Dict, Distinct, or_else}
use agora_etl_plugins.Common.{
  ℕ, ◌+◌, ◌≡◌, refl, sym, ap, subst, ◌∙◌, Bool, true, false, Option, none, some, List, [], ◌∷◌,
  if◌then◌else◌, string_eq, nat_eq, pair_eq, ◌==◌,
}
use agora_etl_plugins.Kafka.Consumer.{Item, Methods}
use agora_etl_plugins.Kafka.Controls.{Outcome, done}
use agora_etl_plugins.Kafka.Cursor.{
  TopicPartition, Offsets, is_empty, positioning_targets, has_exact_start_offsets,
  mark_positioning_applied, prepare_resume, build_checkpoint,
}
use agora_etl_plugins.Kafka.Positioning.{
  Runtime, assignment_contains_all, start_offset, is_skipped, seek_each, located, positioned,
  seek_targets, seek_from, on_cursor, apply_initial_positioning,
}
use agora_etl_plugins.Kafka.Positioning.Applied.{
  started, seek_each-position, positioned-done, not_skipped,
}
use agora_etl_plugins.Kafka.Resume.{
  normalize_checkpoint_offsets, raw, normalize-build_checkpoint, normalize-Distinct,
}

-- A consumer that tells its assignment and its positions, and seeks one partition at a time.
pub record Seekable {S : Type 0} (methods : Methods S) : Type 0 where
  pub position : TopicPartition → S → Option ℕ
  pub assigned : S → List Item
  pub seek : TopicPartition → ℕ → S → Option S
  pub has_assigned : methods.assignment ≡ some assigned
  pub has_seek : methods.seek ≡ some seek
  pub seek_lem :
      (tp k : TopicPartition) (o : ℕ) (s s' : S)
      → seek tp o s ≡ some s'
      → position k s' ≡ (if tp == k then some o else position k s)

-- The position of a partition once the targets are applied.
abbrev pub from_target : Bool → Option ℕ → Option ℕ → Option ℕ
from_target exact none before = before
from_target exact (some o) before = some (start_offset exact o)

started-all :
    (exact skipped : Bool) (target before : Option ℕ)
    → ((o : ℕ) → target ≡ some o → skipped ≡ false)
    → started exact skipped target before ≡ from_target exact target before
started-all exact skipped none before h = refl
started-all exact skipped (some o) before h = rw (h o refl)

holds_some : (d : Offsets) (k : TopicPartition) (o : ℕ) → Dict.get k d ≡ some o → is_empty d ≡ false
unfolding Dict.get
holds_some [] k o h = cc
holds_some (x ∷ d) k o h = refl

module _ {S : Type 0} (methods : Methods S) (able : Seekable methods) where
  seek_targets-all :
      (targets : Offsets) (r : Runtime) (s : S)
      → assignment_contains_all (able.assigned s) targets ≡ true
      → seek_targets methods targets r s
        ≡ positioned r (
            seek_each able.seek
              (has_exact_start_offsets r.cursor)
              (some (able.assigned s))
              targets
              s)
  unfolding seek_targets seek_from located
  seek_targets-all targets r s all =
      ap (λ m. seek_from m targets (located methods.assignment methods targets r s)) able.has_seek
      ∙ ap (λ m. seek_from (some able.seek) targets (located m methods targets r s))
          able.has_assigned
      ∙ rw all

  applied :
      (targets : Offsets) (r : Runtime) (s : S) (k : TopicPartition)
      → let x =
          if is_empty targets
          then (on_cursor mark_positioning_applied r, s, done)
          else seek_targets methods targets r s in
        Distinct targets
        → assignment_contains_all (able.assigned s) targets ≡ true
        → x.2 ≡ done
        → (able.position k x.1
            ≡ from_target
                (has_exact_start_offsets r.cursor)
                (Dict.get k targets)
                (able.position k s))
          × (x.0.cursor ≡ mark_positioning_applied r.cursor)
  unfolding Dict.get
  applied [] r s k distinct all h = (refl, refl)
  applied (t ∷ targets) r s k distinct all h =
      let exact = has_exact_start_offsets r.cursor in
      let loop = seek_each able.seek exact (some (able.assigned s)) (t ∷ targets) s in
      let same = seek_targets-all (t ∷ targets) r s all in
      let (ended, cursor, state) =
        positioned-done r loop (sym (ap (λ (x : Runtime × S × Outcome). x.2) same) ∙ h) in
      (
        ap (λ (x : Runtime × S × Outcome). able.position k x.1) same
            ∙ ap (able.position k) state
            ∙ seek_each-position able.seek able.position able.seek_lem exact
                (some (able.assigned s)) (t ∷ targets) s k distinct ended
            ∙ started-all exact (is_skipped (some (able.assigned s)) k) (Dict.get k (t ∷ targets))
                (able.position k s) (λ o e. not_skipped (able.assigned s) (t ∷ targets) k o all e),
        ap (λ (x : Runtime × S × Outcome). x.0.cursor) same ∙ cursor,
      )

  -- Once the positions are applied for the first time, at a consumer that is assigned every target,
  -- each target stands at its offset, if it is a start offset, or at the one after it; every other
  -- partition stands where it stood; and the cursor knows that positions are applied. This holds
  -- where the targets are distinct and no seek raises.
  pub apply_initial_positioning-position :
      (r : Runtime) (s : S) (k : TopicPartition)
      → let targets = positioning_targets r.cursor in
        let x = apply_initial_positioning (some methods) r s in
        r.cursor.positioning_applied ≡ false
        → Distinct targets
        → assignment_contains_all (able.assigned s) targets ≡ true
        → x.2 ≡ done
        → (able.position k x.1
            ≡ from_target
                (has_exact_start_offsets r.cursor)
                (Dict.get k targets)
                (able.position k s))
          × (x.0.cursor ≡ mark_positioning_applied r.cursor)
  unfolding apply_initial_positioning
  apply_initial_positioning-position r s k fresh distinct all h =
      let targets = positioning_targets r.cursor in
      let same : apply_initial_positioning (some methods) r s ≡ (
          if is_empty targets
          then (on_cursor mark_positioning_applied r, s, done)
          else seek_targets methods targets r s) =
        rw fresh in
      subst
        (λ (x : Runtime × S × Outcome).
          (able.position k x.1
            ≡ from_target (has_exact_start_offsets r.cursor) (Dict.get k targets)
                (able.position k s))
          × (x.0.cursor ≡ mark_positioning_applied r.cursor))
        (sym same)
        (applied targets r s k distinct all
          (sym (ap (λ (x : Runtime × S × Outcome). x.2) same) ∙ h))

  -- A source that resumes from the checkpoint of its processed offsets, at a consumer that is
  -- assigned all of them and where no seek raises, starts each partition one after the last offset
  -- that was processed there. This holds where no start offsets were given.
  pub resume_from_checkpoint :
      (r : Runtime) (s : S) (seen : TopicPartition × ℕ) (processed : Offsets) (k : TopicPartition)
      (o : ℕ)
      → let targets = normalize_checkpoint_offsets (raw (build_checkpoint seen processed)) in
        let x = apply_initial_positioning (some methods) (on_cursor (prepare_resume targets) r) s in
        is_empty r.cursor.start_offsets ≡ true
        → Distinct processed
        → assignment_contains_all (able.assigned s) targets ≡ true
        → x.2 ≡ done
        → Dict.get k processed ≡ some o
        → able.position k x.1 ≡ some (o + 1)
  unfolding prepare_resume positioning_targets has_exact_start_offsets
  resume_from_checkpoint r s seen processed k o none_given distinct all h found =
      let targets = normalize_checkpoint_offsets (raw (build_checkpoint seen processed)) in
      let r' = on_cursor (prepare_resume targets) r in
      let before = able.position k s in
      let aims : positioning_targets r'.cursor ≡ targets = rw none_given in
      let at_target =
        apply_initial_positioning-position r' s k refl
          (subst Distinct (sym aims) (normalize-Distinct (raw (build_checkpoint seen processed))))
          (subst (λ t. assignment_contains_all (able.assigned s) t ≡ true) (sym aims) all) h in
      at_target.0
      ∙ ap (λ t. from_target (has_exact_start_offsets r'.cursor) (Dict.get k t) before) aims
      ∙ ap (λ f. from_target (has_exact_start_offsets r'.cursor) f before)
          (normalize-build_checkpoint seen processed k distinct (holds_some processed k o found)
            ∙ found)
      ∙ rw none_given
