-- ===== src/Kafka/Positioning/Applied.antt =====
-- Where a consumer stands once its first positions are applied.
use agora_etl_plugins.Common.Dict
use agora_etl_plugins.Common.Dict.{Dict, Distinct}
use agora_etl_plugins.Common.{
  String, ℕ, ◌≡◌, refl, sym, ap, ◌∙◌, Bool, true, false, Option, none, some, List, [], ◌∷◌,
  if◌then◌else◌, string_eq, nat_eq, pair_eq, ◌==◌, arith, Bool-cases, inl, inr,
}
use agora_etl_plugins.Common.Sets.{has}
use agora_etl_plugins.Kafka.Consumer.{
  Item, normalize_assignment_items, normalize_item, read_item, keep,
}
use agora_etl_plugins.Kafka.Controls.{Outcome, done, refused}
use agora_etl_plugins.Kafka.Cursor.{TopicPartition, Offsets, mark_positioning_applied}
use agora_etl_plugins.Kafka.Positioning.{
  Runtime, assignment_contains, assignment_contains_all, names_item, names_place, start_offset,
  is_skipped, seek_each, sought, and_then, positioned,
}

contains_read :
    (t : Option String) (p : Option ℕ) (l : Option (Option String × Option ℕ)) (tp : TopicPartition)
    (rest : List TopicPartition)
    → (if names_item (record { topic = t; partition = p; places = l }) tp
        then true
        else has tp rest)
      ≡ has tp (keep (read_item t p l) rest)
unfolding names_item names_place read_item keep has
contains_read (some t) (some p) l tp rest = ground arith
contains_read (some t) none l tp rest = refl
contains_read none none none tp rest = refl
contains_read none (some p) none tp rest = refl
contains_read none p (some (some t, some q)) tp rest = ground arith
contains_read none p (some (some t, none)) tp rest = ground arith
contains_read none p (some (none, some q)) tp rest = ground arith
contains_read none p (some (none, none)) tp rest = ground arith

-- Both readings of an assignment agree.
pub assignment_contains-normalize :
    (items : List Item) (tp : TopicPartition)
    → assignment_contains items tp ≡ has tp (normalize_assignment_items items)
unfolding assignment_contains normalize_assignment_items has normalize_item
assignment_contains-normalize [] tp = refl
assignment_contains-normalize (i ∷ items) tp =
    ap (λ b. if names_item i tp then true else b) (assignment_contains-normalize items tp)
    ∙ contains_read i.topic i.partition i.places tp (normalize_assignment_items items)

abbrev pub started : Bool → Bool → Option ℕ → Option ℕ → Option ℕ
started exact skipped none before = before
started exact skipped (some o) before = if skipped then before else some (start_offset exact o)

started_step :
    (skip : TopicPartition → Bool) (exact : Bool) (tp k : TopicPartition) (o : ℕ)
    (found before : Option ℕ)
    → (tp == k ≡ true → found ≡ none)
    → started exact
        (skip k)
        found
        (if tp == k then started exact (skip tp) (some o) before else before)
      ≡ started exact (skip k) (if tp == k then some o else found) before
started_step skip exact tp k o found before gone = elim (Bool-cases (tp == k)) [
  | inl e ↦
      rw (e, gone e)
        (ap (λ b. if b then before else some (start_offset exact o))
          (ap skip ((pair_eq.beq_iff tp k).0 e)))
  | inr e ↦ rw e
]

module _ {S : Type 0} (seek : TopicPartition → ℕ → S → Option S)
    (position : TopicPartition → S → Option ℕ)
    (law : (tp k : TopicPartition) (o : ℕ) (s s' : S)
      → seek tp o s ≡ some s'
      → position k s' ≡ (if tp == k then some o else position k s)) where
  -- The place of a partition after one step of the loop.
  and_then-done :
      (here : S × Outcome) (next : S → S × Outcome)
      → (and_then here next).1 ≡ done
      → (here.1 ≡ done) × (and_then here next ≡ next here.0)
  unfolding and_then
  and_then-done (s, done) next h = (refl, refl)
  and_then-done (s, Outcome.unassigned_targets) next h = cc
  and_then-done (s, Outcome.no_active_assignment) next h = cc
  and_then-done (s, Outcome.unsupported) next h = cc
  and_then-done (s, refused) next h = cc

  sought-done :
      (s : S) (r : Option S) (tp k : TopicPartition) (o : ℕ)
      → seek tp o s ≡ r
      → (sought s r).1 ≡ done
      → position k (sought s r).0 ≡ (if tp == k then some o else position k s)
  unfolding sought
  sought-done s none tp k o e h = cc
  sought-done s (some s') tp k o e h = law tp k o s s' e

  seek_one :
      (exact skipped : Bool) (tp k : TopicPartition) (o : ℕ) (s : S)
      → let here = if skipped then (s, done) else sought s (seek tp (start_offset exact o) s) in
        here.1 ≡ done
        → position k here.0
          ≡ (if tp == k then started exact skipped (some o) (position k s) else position k s)
  seek_one exact true tp k o s h = ground arith
  seek_one exact false tp k o s h = sought-done s _ tp k (start_offset exact o) refl h

  pub seek_each-position :
      (exact : Bool) (assigned : Option (List Item)) (targets : Offsets) (s : S)
      (k : TopicPartition)
      → Distinct targets
      → (seek_each seek exact assigned targets s).1 ≡ done
      → position k (seek_each seek exact assigned targets s).0
        ≡ started exact (is_skipped assigned k) (Dict.get k targets) (position k s)
  unfolding seek_each Dict.get
  seek_each-position exact assigned [] s k distinct h = refl
  seek_each-position exact assigned ((tp, o) ∷ targets) s k distinct h =
      let here =
        if is_skipped assigned tp then (s, done) else sought s (seek tp (start_offset exact o) s) in
      let (first, same) = and_then-done here (seek_each seek exact assigned targets) h in
      ap (λ (r : S × Outcome). position k r.0) same
      ∙ seek_each-position exact assigned targets here.0 k distinct.1
          (sym (ap (λ (r : S × Outcome). r.1) same) ∙ h)
      ∙ ap (started exact (is_skipped assigned k) (Dict.get k targets))
          (seek_one exact (is_skipped assigned tp) tp k o s first)
      ∙ started_step (is_skipped assigned) exact tp k o (Dict.get k targets) (position k s)
          (λ e. ap (λ j. Dict.get j targets) (sym ((pair_eq.beq_iff tp k).0 e)) ∙ distinct.0)

pub positioned-done :
    {S : Type 0} (r : Runtime) (x : S × Outcome)
    → (positioned r x).2 ≡ done
    → (x.1 ≡ done)
      × ((positioned r x).0.cursor ≡ mark_positioning_applied r.cursor)
      × ((positioned r x).1 ≡ x.0)
unfolding positioned
positioned-done r (s, done) h = (refl, refl, refl)
positioned-done r (s, Outcome.unassigned_targets) h = cc
positioned-done r (s, Outcome.no_active_assignment) h = cc
positioned-done r (s, Outcome.unsupported) h = cc
positioned-done r (s, refused) h = cc

-- No target is skipped when the assignment has them all.
pub not_skipped :
    (items : List Item) (targets : Offsets) (k : TopicPartition) (o : ℕ)
    → assignment_contains_all items targets ≡ true
    → Dict.get k targets ≡ some o
    → is_skipped (some items) k ≡ false
unfolding assignment_contains_all is_skipped Dict.get
not_skipped items [] k o all h = cc
not_skipped items ((tp, o') ∷ targets) k o all h = elim (Bool-cases (tp == k)) [
  | inl e ↦
      let same : assignment_contains items tp ≡ assignment_contains items k =
        ap (assignment_contains items) ((pair_eq.beq_iff tp k).0 e) in
      ground (arith, all, same)
  | inr e ↦ not_skipped items targets k o (ground (arith, all)) (ground (arith, e, h))
]
