-- ===== src/Kafka/Controls/Paused.antt =====
-- What the controls ask to be paused is what the consumer has paused.
use agora_etl_plugins.Common.{
  ◌≡◌, refl, sym, ap, subst, ◌∙◌, true, false, not, ◌&&◌, ◌||◌, Option, none, some, List, [], ◌∷◌,
  if◌then◌else◌, string_eq, nat_eq, pair_eq, arith, Bool-cases,
}
use agora_etl_plugins.Common.Sets.{is_nil, has, set_of, union, has-difference}
use agora_etl_plugins.Kafka.Cursor.{TopicPartition}
use agora_etl_plugins.Kafka.Consumer.{Methods, Pausable}
use agora_etl_plugins.Kafka.Controls.{
  Controls, Outcome, done, finish, apply_pause_state, apply_resume_state, pause_targets, pause,
  resume, release, or_none, validate_assigned_partitions, or_active, drop_revoked,
}
use agora_etl_plugins.Kafka.Controls.Calls.{
  wants, has-limit_to, limited_lem, has-resume_targets, sync_lem, wants-union, set_of-nonempty,
  release_lem, resume_all_lem, finish-done, guarded-done, call-done,
}

module _ {S : Type 0} (methods : Methods S) (able : Pausable methods) where
  abbrev consumer : Option (Methods S)
  consumer = some methods

  -- On the assigned partitions the consumer has paused what the controls ask for.
  abbrev pub InSync : Controls → S → Type 0
  InSync c s =
      (tp : TopicPartition) → has tp c.active_assignment ≡ true → able.paused tp s ≡ wants tp c

  pub apply_pause-done :
      (requested : List TopicPartition) (c : Controls) (s : S) (tp : TopicPartition)
      → (apply_pause_state consumer (or_none requested) c s).1 ≡ done
      → able.paused tp (apply_pause_state consumer (or_none requested) c s).0
        ≡ ((wants tp c && (is_nil requested || has tp requested)) || able.paused tp s)
  unfolding apply_pause_state
  apply_pause-done requested c s tp h =
      rw
        (call-done able.pauses able.paused ◌||◌ (λ b. refl) able.pauses_lem methods.pause _ s tp
          able.has_pauses h)
        (ap (λ b. b || able.paused tp s) (has-limit_to requested _ tp)
          ∙ limited_lem _ (is_nil requested) _ _)

  apply_resume-done :
      (targets : List TopicPartition) (c : Controls) (s : S) (tp : TopicPartition)
      → (apply_resume_state consumer (or_none targets) c s).1 ≡ done
      → able.paused tp (apply_resume_state consumer (or_none targets) c s).0 ≡ (
          not (if is_nil targets then has tp c.active_assignment else has tp targets)
          && able.paused tp s)
  unfolding apply_resume_state
  apply_resume-done targets c s tp h =
      rw
        (call-done able.resumes able.paused (λ a b. not a && b) (λ b. refl) able.resumes_lem
          methods.resume _ s tp able.has_resumes h)
        (ap (λ b. not b && able.paused tp s) (has-resume_targets targets c tp))

  pause_targets-InSync :
      (targets : List TopicPartition) (c : Controls) (s : S)
      → ((tp : TopicPartition)
          → has tp c.active_assignment ≡ true
          → (able.paused tp s || has tp targets) ≡ (wants tp c || has tp targets))
      → (pause_targets consumer targets c s).2 ≡ done
      → InSync (pause_targets consumer targets c s).0 (pause_targets consumer targets c s).1
  unfolding pause_targets
  pause_targets-InSync targets c s sync h tp active =
      let c' : Controls = record c { paused_partitions = union c.paused_partitions targets } in
      let (applied, controls, state) =
        finish-done c' (apply_pause_state consumer (or_none targets) c' s) h in
      let is_active : has tp c.active_assignment ≡ true =
        subst (λ (x : Controls). has tp x.active_assignment ≡ true) controls active in
      ap (able.paused tp) state
      ∙ apply_pause-done targets c' s tp applied
      ∙ sync_lem (wants tp c') (is_nil targets) (has tp targets) (able.paused tp s)
          (wants-union targets c tp is_active ∙ sym (sync tp is_active))
      ∙ sym (ap (wants tp) controls)

  -- Pausing, of some partitions or of all, keeps the consumer in step with the controls.
  pub pause-InSync :
      (partitions : Option (List TopicPartition)) (c : Controls) (s : S)
      → InSync c s
      → (pause consumer partitions c s).2 ≡ done
      → InSync (pause consumer partitions c s).0 (pause consumer partitions c s).1
  unfolding pause
  pause-InSync none c s sync h =
      pause_targets-InSync c.active_assignment (record c { pause_all_requested = true }) s
        (λ tp active. ground arith) h
  pause-InSync (some partitions) c s sync h =
      let targets = set_of partitions in
      let (valid, same) =
        guarded-done (validate_assigned_partitions targets c) (pause_targets consumer targets c s) c
          s h in
      subst (λ (r : Controls × S × Outcome). InSync r.0 r.1) (sym same)
        (pause_targets-InSync targets c s
          (λ tp active. ap (λ b. b || has tp targets) (sync tp active))
          (sym (ap (λ (r : Controls × S × Outcome). r.2) same) ∙ h))

  finish_resume :
      (targets : List TopicPartition) (c : Controls) (s : S)
      → (finish c (apply_resume_state consumer (or_none targets) c s)).2 ≡ done
      → ((tp : TopicPartition)
          → has tp c.active_assignment ≡ true
          → (not (if is_nil targets then has tp c.active_assignment else has tp targets)
              && able.paused tp s)
            ≡ wants tp c)
      → InSync
          (finish c (apply_resume_state consumer (or_none targets) c s)).0
          (finish c (apply_resume_state consumer (or_none targets) c s)).1
  finish_resume targets c s h step tp active =
      let (applied, controls, state) =
        finish-done c (apply_resume_state consumer (or_none targets) c s) h in
      let is_active : has tp c.active_assignment ≡ true =
        subst (λ (x : Controls). has tp x.active_assignment ≡ true) controls active in
      ap (able.paused tp) state
      ∙ apply_resume-done targets c s tp applied
      ∙ step tp is_active
      ∙ sym (ap (wants tp) controls)

  -- Resuming some of the partitions keeps the consumer in step with the controls.
  pub resume-InSync :
      (tp : TopicPartition) (partitions : List TopicPartition) (c : Controls) (s : S)
      → InSync c s
      → (resume consumer (some (tp ∷ partitions)) c s).2 ≡ done
      → InSync
          (resume consumer (some (tp ∷ partitions)) c s).0
          (resume consumer (some (tp ∷ partitions)) c s).1
  unfolding resume
  resume-InSync first partitions c s sync h =
      let targets = set_of (first ∷ partitions) in
      let c' = release targets c in
      let (valid, same) =
        guarded-done (validate_assigned_partitions targets c)
          (finish c' (apply_resume_state consumer (or_none targets) c' s)) c s h in
      subst (λ (r : Controls × S × Outcome). InSync r.0 r.1) (sym same)
        (finish_resume targets c' s (sym (ap (λ (r : Controls × S × Outcome). r.2) same) ∙ h)
          (λ tp active.
            release_lem targets c tp (able.paused tp s) (is_nil targets)
              (set_of-nonempty first partitions) active (sync tp)))

  -- Resuming all of them does so too, where pausing all of them named every assigned partition.
  pub resume_all-InSync :
      (c : Controls) (s : S)
      → InSync c s
      → ((tp : TopicPartition)
          → c.pause_all_requested ≡ true
          → has tp c.active_assignment ≡ true
          → has tp c.paused_partitions ≡ true)
      → (resume consumer none c s).2 ≡ done
      → InSync (resume consumer none c s).0 (resume consumer none c s).1
  unfolding resume has
  resume_all-InSync c s sync named h =
      let c' : Controls = record c { pause_all_requested = false; paused_partitions = [] } in
      let targets = or_active c.paused_partitions c.active_assignment in
      finish_resume targets c' s h (λ tp active.
        resume_all_lem c tp (able.paused tp s) active (sync tp active) (λ all. named tp all active))

  -- Resuming all of the partitions leaves a partition that is not among the paused ones as it is,
  -- unless no partition is among them: such a partition stays paused at the consumer, and the
  -- controls no longer ask for that, where it was assigned after all of them were paused.
  pub resume_all-stale :
      (c : Controls) (s : S) (tp : TopicPartition)
      → is_nil c.paused_partitions ≡ false
      → has tp c.paused_partitions ≡ false
      → (resume consumer none c s).2 ≡ done
      → (able.paused tp (resume consumer none c s).1 ≡ able.paused tp s)
        × (wants tp (resume consumer none c s).0 ≡ false)
  unfolding resume has
  resume_all-stale c s tp some_paused unlisted h =
      let c' : Controls = record c { pause_all_requested = false; paused_partitions = [] } in
      let targets = or_active c.paused_partitions c.active_assignment in
      let (applied, controls, state) =
        finish-done c' (apply_resume_state consumer (or_none targets) c' s) h in
      (
        ap (able.paused tp) state
            ∙ apply_resume-done targets c' s tp applied
            ∙ ground (arith, some_paused, unlisted),
        ap (wants tp) controls,
      )

  -- A revoked partition is neither assigned nor paused, and the others stay in step.
  pub drop_revoked-InSync :
      (revoked : List TopicPartition) (c : Controls) (s : S)
      → InSync c s
      → InSync (drop_revoked revoked c) s
        × ((tp : TopicPartition)
            → has tp revoked ≡ true
            → (has tp (drop_revoked revoked c).active_assignment ≡ false)
              × (has tp (drop_revoked revoked c).paused_partitions ≡ false))
  unfolding drop_revoked has
  drop_revoked-InSync [] c s sync = (sync, λ tp gone. cc)
  drop_revoked-InSync (r ∷ revoked) c s sync = (
    λ tp active. ground (
      arith,
      active,
      sync tp,
      has-difference tp c.active_assignment (r ∷ revoked),
      has-difference tp c.paused_partitions (r ∷ revoked),
      Bool-cases c.pause_all_requested,
    ),
    λ tp gone. (
      ground (arith, gone, has-difference tp c.active_assignment (r ∷ revoked)),
      ground (arith, gone, has-difference tp c.paused_partitions (r ∷ revoked)),
    ),
  )
