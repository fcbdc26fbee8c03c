-- ===== src/Kafka/Controls/Calls.antt =====
-- What the checks and the calls of the controls come to, and the partitions that the controls ask to be
-- paused.
use agora_etl_plugins.Common.{
  ◌≡◌, refl, sym, Bool, true, false, not, ◌&&◌, ◌||◌, Option, none, some, List, [], ◌∷◌,
  if◌then◌else◌, string_eq, nat_eq, pair_eq, arith, inl, inr, Bool-cases, beq_refl,
}
use agora_etl_plugins.Common.Sets.{
  is_nil, has, set_of, union, difference, has-set_of, has-union, has-difference, has-intersection,
  has-sort, is_nil→has,
}
use agora_etl_plugins.Common.Sort.{sort}
use agora_etl_plugins.Kafka.Cursor.{TopicPartition}
use agora_etl_plugins.Kafka.Controls.{
  Controls, Outcome, done, guarded, unassigned_targets, on_change, settle, call_with, call, finish,
  release, limit_to, or_none, place_leb, validate_assigned_partitions, resume_targets, or_active,
}

-- Whether the controls ask for a partition to be paused.
abbrev pub wants : TopicPartition → Controls → Bool
wants tp c = has tp (if c.pause_all_requested then c.active_assignment else c.paused_partitions)

-- All targets are assigned once the check passes.
pub validate-done :
    (targets : List TopicPartition) (c : Controls) (tp : TopicPartition)
    → validate_assigned_partitions targets c ≡ done
    → has tp targets ≡ true
    → has tp c.active_assignment ≡ true
unfolding validate_assigned_partitions
validate-done targets c tp h target =
    elim (Bool-cases (is_nil (difference targets c.active_assignment))) [
      | inl e ↦ ground (arith, is_nil→has _ tp e, has-difference tp targets c.active_assignment)
      | inr e ↦ ground (arith, h)
    ]

pub has-limit_to :
    (requested targets : List TopicPartition) (tp : TopicPartition)
    → has tp (limit_to (or_none requested) targets)
      ≡ (if is_nil requested then has tp targets else has tp targets && has tp requested)
unfolding limit_to
has-limit_to [] targets tp = refl
has-limit_to (r ∷ requested) targets tp = has-intersection tp targets (r ∷ requested)

pub limited_lem : (w b r p : Bool) → ((if b then w else w && r) || p) ≡ ((w && (b || r)) || p)
limited_lem w b r p = ground arith

pub has-resume_targets :
    (targets : List TopicPartition) (c : Controls) (tp : TopicPartition)
    → has tp (resume_targets (or_none targets) c)
      ≡ (if is_nil targets then has tp c.active_assignment else has tp targets)
unfolding resume_targets
has-resume_targets [] c tp = refl
has-resume_targets (t ∷ targets) c tp = has-set_of tp (t ∷ targets)

pub sync_lem : (w b t p : Bool) → w ≡ (p || t) → ((w && (b || t)) || p) ≡ w
sync_lem w b t p h = ground arith

-- The partitions asked for once more of them are.
pub wants-union :
    (targets : List TopicPartition) (c : Controls) (tp : TopicPartition)
    → has tp c.active_assignment ≡ true
    → wants tp (record c { paused_partitions = union c.paused_partitions targets })
      ≡ (wants tp c || has tp targets)
wants-union targets c tp active =
    ground (arith, has-union tp c.paused_partitions targets, Bool-cases c.pause_all_requested)

pub set_of-nonempty :
    (tp : TopicPartition) (items : List TopicPartition) → is_nil (set_of (tp ∷ items)) ≡ false
unfolding has
set_of-nonempty tp items = elim (Bool-cases (is_nil (set_of (tp ∷ items)))) [
  | inl e ↦ ground (arith, is_nil→has _ tp e, has-set_of tp (tp ∷ items), beq_refl tp)
  | inr e ↦ e
]

pub release_lem :
    (targets : List TopicPartition) (c : Controls) (tp : TopicPartition) (p b : Bool)
    → b ≡ false
    → has tp (release targets c).active_assignment ≡ true
    → (has tp c.active_assignment ≡ true → p ≡ wants tp c)
    → (not (if b then has tp (release targets c).active_assignment else has tp targets) && p)
      ≡ wants tp (release targets c)
unfolding release
release_lem targets c tp p b e active sync = ground (
  arith,
  e,
  sync,
  Bool-cases c.pause_all_requested,
  has-difference tp c.active_assignment targets,
  has-difference tp (difference c.active_assignment targets) targets,
  has-difference tp c.paused_partitions targets,
)

pub resume_all_lem :
    (c : Controls) (tp : TopicPartition) (p : Bool)
    → has tp c.active_assignment ≡ true
    → p ≡ wants tp c
    → (c.pause_all_requested ≡ true → has tp c.paused_partitions ≡ true)
    → let targets = or_active c.paused_partitions c.active_assignment in
      (not (if is_nil targets then has tp c.active_assignment else has tp targets) && p) ≡ false
resume_all_lem c tp p active sync named = elim (Bool-cases (is_nil c.paused_partitions)) [
  | inl e ↦ ground (arith, e, sync, named, is_nil→has _ tp e, Bool-cases c.pause_all_requested)
  | inr e ↦ ground (arith, e, sync, named, Bool-cases c.pause_all_requested)
]

pub finish-done :
    {S : Type 0} (c : Controls) (r : S × Outcome)
    → (finish c r).2 ≡ done
    → (r.1 ≡ done) × ((finish c r).0 ≡ on_change c) × ((finish c r).1 ≡ r.0)
unfolding finish
finish-done c (s, done) h = (refl, refl, refl)
finish-done c (s, unassigned_targets) h = cc
finish-done c (s, Outcome.no_active_assignment) h = cc
finish-done c (s, Outcome.unsupported) h = cc
finish-done c (s, Outcome.refused) h = cc

pub guarded-done :
    {S : Type 0} (o : Outcome) (next : Controls × S × Outcome) (c : Controls) (s : S)
    → (guarded o next c s).2 ≡ done
    → (o ≡ done) × (guarded o next c s ≡ next)
unfolding guarded
guarded-done done next c s h = (refl, refl)
guarded-done unassigned_targets next c s h = cc
guarded-done Outcome.no_active_assignment next c s h = cc
guarded-done Outcome.unsupported next c s h = cc
guarded-done Outcome.refused next c s h = cc

-- A call that does not raise has its effect on each of the targets.
module _ {S : Type 0} (method : List TopicPartition → S → Option S)
    (read : TopicPartition → S → Bool) (effect : Bool → Bool → Bool)
    (effect_false : (b : Bool) → effect false b ≡ b)
    (law : (targets : List TopicPartition) (s s' : S) (tp : TopicPartition)
      → method targets s ≡ some s'
      → read tp s' ≡ effect (has tp targets) (read tp s)) where
  settle-done :
      (targets : List TopicPartition) (s : S) (r : Option S) (tp : TopicPartition)
      → method targets s ≡ r
      → (settle s r).1 ≡ done
      → read tp (settle s r).0 ≡ effect (has tp targets) (read tp s)
  unfolding settle
  settle-done targets s none tp e h = cc
  settle-done targets s (some s') tp e h = law targets s s' tp e

  pub call-done :
      (m : Option (List TopicPartition → S → Option S)) (targets : List TopicPartition) (s : S)
      (tp : TopicPartition)
      → m ≡ some method
      → (call m targets s).1 ≡ done
      → read tp (call m targets s).0 ≡ effect (has tp targets) (read tp s)
  unfolding call call_with has
  call-done none targets s tp e h = cc
  call-done (some m) [] s tp e h = sym (effect_false (read tp s))
  call-done (some m) (t ∷ targets) s tp e h =
      let same : m (sort place_leb (t ∷ targets)) s ≡ method (sort place_leb (t ∷ targets)) s =
        cc in
      rw (sym (has-sort place_leb tp (t ∷ targets)))
        (settle-done (sort place_leb (t ∷ targets)) s _ tp (sym same) h)
