-- ===== src/Kafka/Controls/Tests.antt =====
-- Controls at a consumer that keeps the list of its paused partitions.
use agora_etl_plugins.Common.{
  ◌≡◌, refl, ap, true, false, not, ◌&&◌, ◌||◌, subst, none, some, List, [], ◌∷◌, string_eq, nat_eq,
  pair_eq, arith,
}
use agora_etl_plugins.Common.Sets.{
  has, add, set_of, union, difference, intersection, has-union, has-difference,
}
use agora_etl_plugins.Common.Sort.{insert, sort, codes_leb}
use agora_etl_plugins.Kafka.Cursor.{TopicPartition}
use agora_etl_plugins.Kafka.Consumer.{Methods, Pausable}
use agora_etl_plugins.Kafka.Controls.{
  Controls, Outcome, done, controller, pause, resume, drop_revoked, guarded, finish, call,
  call_with, settle, limit_to, apply_pause_state, apply_resume_state, pause_targets, resume_targets,
  release, validate_assigned_partitions, place_leb,
}
use agora_etl_plugins.Kafka.Controls.History.{
  Step, pauses, resumes, revokes, run, take_step, follow, run-InSync,
}
use agora_etl_plugins.Kafka.Controls.Calls.{wants}
use agora_etl_plugins.Kafka.Controls.Paused.{InSync, resume_all-stale}

abbrev Paused : Type 0
Paused = List TopicPartition

abbrev methods : Methods Paused
methods = record {
  assignment = none;
  getmany = none;
  pause = some (λ targets s. some (union s targets));
  resume = some (λ targets s. some (difference s targets));
  seek = none;
}

pauses_law :
    (targets s s' : Paused) (tp : TopicPartition)
    → some (union s targets) ≡ some s'
    → has tp s' ≡ (has tp targets || has tp s)
pauses_law targets s s' tp e =
    let same : union s targets ≡ s' = cc in
    subst (λ x. has tp x ≡ (has tp targets || has tp s)) same (has-union tp s targets)

resumes_law :
    (targets s s' : Paused) (tp : TopicPartition)
    → some (difference s targets) ≡ some s'
    → has tp s' ≡ (not (has tp targets) && has tp s)
resumes_law targets s s' tp e =
    let same : difference s targets ≡ s' = cc in
    subst (λ x. has tp x ≡ (not (has tp targets) && has tp s)) same
      (ground (arith, has-difference tp s targets))

abbrev able : Pausable methods
able = record {
  paused = has;
  pauses = λ targets s. some (union s targets);
  resumes = λ targets s. some (difference s targets);
  has_pauses = refl;
  has_resumes = refl;
  pauses_lem = pauses_law;
  resumes_lem = resumes_law;
}

abbrev orders : TopicPartition
orders = ("orders", 0)

abbrev events : TopicPartition
events = ("events", 3)

abbrev started : Controls
started = controller (orders ∷ events ∷ [])

nothing_paused : InSync methods able started []
unfolding has
nothing_paused tp active = refl

-- Everything is paused, and then one partition is resumed and lost.
abbrev steps : List Step
steps = pauses none ∷ resumes orders [] ∷ revokes (orders ∷ []) ∷ []

taken_run : run methods steps started [] ≡ (
  record {
    active_assignment = events ∷ [];
    paused_partitions = events ∷ [];
    pause_all_requested = false;
    changes = 3;
  },
  events ∷ [],
  done,
)
unfolding run take_step follow pause resume drop_revoked guarded finish pause_targets call call_with
    settle limit_to apply_pause_state apply_resume_state resume_targets release
    validate_assigned_partitions has add set_of union difference intersection sort insert place_leb
    codes_leb
taken_run = refl

run-InSync_example :
    InSync methods able (run methods steps started []).0 (run methods steps started []).1
run-InSync_example =
    run-InSync methods able steps started [] nothing_paused
      (ap (λ (x : Controls × Paused × Outcome). x.2) taken_run)

-- `events` came to the source after all of its partitions were paused.
abbrev stale : Controls
stale = record {
  active_assignment = orders ∷ events ∷ [];
  paused_partitions = orders ∷ [];
  pause_all_requested = true;
  changes = 2;
}

stale_run : (resume (some methods) none stale (orders ∷ events ∷ [])).2 ≡ done
unfolding resume finish call call_with settle apply_resume_state resume_targets has add set_of
    difference sort insert
stale_run = refl

resume_all-stale_example :
    (has events (resume (some methods) none stale (orders ∷ events ∷ [])).1
      ≡ has events (orders ∷ events ∷ []))
    × (wants events (resume (some methods) none stale (orders ∷ events ∷ [])).0 ≡ false)
unfolding has
resume_all-stale_example =
    resume_all-stale methods able stale (orders ∷ events ∷ []) events refl refl stale_run
