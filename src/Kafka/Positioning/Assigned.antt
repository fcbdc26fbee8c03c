-- ===== src/Kafka/Positioning/Assigned.antt =====
-- A rebalance hands partitions over: what `handle_partitions_assigned` leaves.
use agora_etl_plugins.Common.{
  ◌≡◌, refl, sym, ap, ◌∙◌, Bool, true, false, ◌&&◌, ◌||◌, Option, some, List, [], ◌∷◌, string_eq,
  nat_eq, pair_eq, arith, Bool-cases, inl, inr,
}
use agora_etl_plugins.Common.Sets.{
  is_nil, has, set_of, same_set, has-set_of, has-is_subset, is_nil→has,
}
use agora_etl_plugins.Kafka.Consumer.{Item, Methods, Pausable, normalize_assignment_items}
use agora_etl_plugins.Kafka.Controls.{
  Controls, Outcome, done, sync_active_assignment, assignment_from, apply_pause_state, or_none,
  limit_to,
}
use agora_etl_plugins.Kafka.Controls.Calls.{wants}
use agora_etl_plugins.Kafka.Controls.Paused.{InSync, apply_pause-done}
use agora_etl_plugins.Kafka.Cursor.{TopicPartition}
use agora_etl_plugins.Kafka.Positioning.{Runtime, handle_partitions_assigned}

has-same_set :
    (s t : List TopicPartition) (tp : TopicPartition) → same_set s t ≡ true → has tp s ≡ has tp t
unfolding same_set
has-same_set s t tp h =
    ground (arith, has-is_subset tp s t, has-is_subset tp t s, Bool-cases (has tp s))

-- The active assignment after a synchronisation is the one that was handed over.
pub has-sync_active_assignment :
    (items : List Item) (c : Controls) (tp : TopicPartition)
    → has tp (sync_active_assignment (some items) c).active_assignment
      ≡ has tp (normalize_assignment_items items)
unfolding sync_active_assignment assignment_from
has-sync_active_assignment items c tp =
    let normalized = set_of (normalize_assignment_items items) in
    elim (Bool-cases (same_set normalized c.active_assignment)) [
      | inl e ↦ rw e (
          sym (has-same_set normalized c.active_assignment tp e)
          ∙ has-set_of tp (normalize_assignment_items items))
      | inr e ↦ rw e (has-set_of tp (normalize_assignment_items items))
    ]

apply_pause-some :
    {S : Type 0} (consumer : Option (Methods S)) (l : List TopicPartition) (c : Controls) (s : S)
    → apply_pause_state consumer (some l) c s ≡ apply_pause_state consumer (or_none l) c s
unfolding apply_pause_state limit_to
apply_pause-some consumer [] c s = refl
apply_pause-some consumer (t ∷ l) c s = refl

in_sync_lem :
    (w b t p : Bool)
    → (b ≡ true → t ≡ false)
    → t ≡ true
    → (p ≡ true → w ≡ true)
    → ((w && (b || t)) || p) ≡ w
in_sync_lem w b t p nil here fresh = ground (arith, fresh, here)

module _ {S : Type 0} (methods : Methods S) (able : Pausable methods) where
  -- After partitions are handed over the active assignment is exactly those, and the consumer has
  -- paused what the controls ask for. This holds where no call raises, and where the consumer had
  -- paused none of them that the controls do not ask for.
  pub assigned-InSync :
      (partitions : List Item) (r : Runtime) (s : S)
      → let x = handle_partitions_assigned (some methods) partitions r s in
        ((tp : TopicPartition)
          → has tp (normalize_assignment_items partitions) ≡ true
          → able.paused tp s ≡ true
          → wants tp x.0.controls ≡ true)
        → x.2 ≡ done
        → ((tp : TopicPartition)
            → has tp x.0.controls.active_assignment
              ≡ has tp (normalize_assignment_items partitions))
          × InSync methods able x.0.controls x.1
  unfolding handle_partitions_assigned
  assigned-InSync partitions r s fresh h =
      let items = normalize_assignment_items partitions in
      let c = sync_active_assignment (some partitions) r.controls in
      let same = apply_pause-some (some methods) items c s in
      (
        has-sync_active_assignment partitions r.controls,
        λ tp active.
            let here = sym (has-sync_active_assignment partitions r.controls tp) ∙ active in
            ap (λ (x : S × Outcome). able.paused tp x.0) same
            ∙ apply_pause-done methods able items c s tp
                (sym (ap (λ (x : S × Outcome). x.1) same) ∙ h)
            ∙ in_sync_lem (wants tp c) (is_nil items) (has tp items) (able.paused tp s)
                (is_nil→has items tp) here (fresh tp here),
      )
