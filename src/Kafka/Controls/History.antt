-- ===== src/Kafka/Controls/History.antt =====
-- Histories of pauses, resumptions and revocations.
use agora_etl_plugins.Common.{◌≡◌, refl, sym, ap, ◌∙◌, Option, some, List, [], ◌∷◌, subst}
use agora_etl_plugins.Kafka.Cursor.{TopicPartition}
use agora_etl_plugins.Kafka.Consumer.{Methods, Pausable}
use agora_etl_plugins.Kafka.Controls.{Controls, Outcome, done, pause, resume, drop_revoked}
use agora_etl_plugins.Kafka.Controls.Paused.{
  InSync, pause-InSync, resume-InSync, drop_revoked-InSync,
}

-- Calls of `pause`, of `resume` with partitions, and of `drop_revoked`.
pub data Step : Type 0 where
  pauses : Option (List TopicPartition) → Step
  resumes : TopicPartition → List TopicPartition → Step
  revokes : List TopicPartition → Step

module _ {S : Type 0} (methods : Methods S) where
  unfoldable pub take_step : Step → Controls → S → Controls × S × Outcome
  unfolding pause resume drop_revoked
  take_step (pauses partitions) c s = pause (some methods) partitions c s
  take_step (resumes tp partitions) c s = resume (some methods) (some (tp ∷ partitions)) c s
  take_step (revokes revoked) c s = (drop_revoked revoked c, s, done)

  unfoldable pub follow :
      Controls × S × Outcome → (Controls → S → Controls × S × Outcome) → Controls × S × Outcome
  follow (c, s, done) next = next c s
  follow (c, s, outcome) next = (c, s, outcome)

  -- The steps up to one that raises.
  unfoldable pub run : List Step → Controls → S → Controls × S × Outcome
  unfolding take_step follow
  run [] c s = (c, s, done)
  run (step ∷ steps) c s = follow (take_step step c s) (run steps)

  follow-done :
      (x : Controls × S × Outcome) (next : Controls → S → Controls × S × Outcome)
      → (follow x next).2 ≡ done
      → (x.2 ≡ done) × (follow x next ≡ next x.0 x.1)
  unfolding follow
  follow-done (c, s, done) next h = (refl, refl)
  follow-done (c, s, Outcome.unassigned_targets) next h = cc
  follow-done (c, s, Outcome.no_active_assignment) next h = cc
  follow-done (c, s, Outcome.unsupported) next h = cc
  follow-done (c, s, Outcome.refused) next h = cc

  module _ (able : Pausable methods) where
    take_step-InSync :
        (step : Step) (c : Controls) (s : S)
        → InSync methods able c s
        → (take_step step c s).2 ≡ done
        → InSync methods able (take_step step c s).0 (take_step step c s).1
    unfolding take_step
    take_step-InSync (pauses partitions) c s sync h =
        pause-InSync methods able partitions c s sync h
    take_step-InSync (resumes tp partitions) c s sync h =
        resume-InSync methods able tp partitions c s sync h
    take_step-InSync (revokes revoked) c s sync h =
        (drop_revoked-InSync methods able revoked c s sync).0

    -- Whatever is paused, resumed by name or revoked, as long as nothing raises the consumer has
    -- paused exactly those of the assigned partitions that the controls ask for, where it had before.
    pub run-InSync :
        (steps : List Step) (c : Controls) (s : S)
        → InSync methods able c s
        → (run steps c s).2 ≡ done
        → InSync methods able (run steps c s).0 (run steps c s).1
    unfolding run
    run-InSync [] c s sync h = sync
    run-InSync (step ∷ steps) c s sync h =
        let x = take_step step c s in
        let (first, same) = follow-done x (run steps) h in
        subst (λ (y : Controls × S × Outcome). InSync methods able y.0 y.1) (sym same)
          (run-InSync steps x.0 x.1 (take_step-InSync step c s sync first)
            (sym (ap (λ (y : Controls × S × Outcome). y.2) same) ∙ h))
