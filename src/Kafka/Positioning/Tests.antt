-- ===== src/Kafka/Positioning/Tests.antt =====
-- Positions at a consumer that keeps its assignment, its paused partitions and its positions.
use agora_etl_plugins.Common.Dict
use agora_etl_plugins.Common.Dict.{Dict, get-put, put_all}
use agora_etl_plugins.Common.{
  ℕ, ◌≡◌, refl, sym, true, subst, none, some, [], ◌∷◌, string_eq, nat_eq, pair_eq, if◌then◌else◌,
  ◌==◌, map,
}
use agora_etl_plugins.Common.Sort.{insert, sort, codes_leb}
use agora_etl_plugins.Kafka.Cursor.{
  TopicPartition, Offsets, init, build_checkpoint, sorted_items, item_leb, prepare_resume,
  positioning_targets, has_exact_start_offsets, mark_positioning_applied,
}
use agora_etl_plugins.Kafka.Consumer.{Methods, topic_partition}
use agora_etl_plugins.Kafka.Controls.{done, controller}
use agora_etl_plugins.Kafka.Positioning.{
  Runtime, on_cursor, apply_initial_positioning, assignment_contains_all, assignment_contains,
  names_item, names_place, is_skipped, seek_each, sought, and_then, located, positioned, seek_from,
  seek_targets,
}
use agora_etl_plugins.Kafka.Positioning.Resumed.{Seekable, resume_from_checkpoint}
use agora_etl_plugins.Kafka.Resume.{
  normalize_checkpoint_offsets, raw, read_place, read_raw, store, read_items, read_offsets,
  or_place,
}

abbrev orders : TopicPartition
orders = ("orders", 0)

abbrev events : TopicPartition
events = ("events", 3)

abbrev methods : Methods Offsets
methods = record {
  assignment = some (λ s. map topic_partition (orders ∷ events ∷ []));
  getmany = none;
  pause = none;
  resume = none;
  seek = some (λ tp o s. some (Dict.put tp o s));
}

seek_law :
    (tp k : TopicPartition) (o : ℕ) (s s' : Offsets)
    → some (Dict.put tp o s) ≡ some s'
    → Dict.get k s' ≡ (if tp == k then some o else Dict.get k s)
seek_law tp k o s s' e =
    let same : Dict.put tp o s ≡ s' = cc in
    subst (λ d. Dict.get k d ≡ (if tp == k then some o else Dict.get k s)) same (get-put tp k o s)

abbrev able : Seekable methods
able = record {
  position = λ tp s. Dict.get tp s;
  assigned = λ s. map topic_partition (orders ∷ events ∷ []);
  seek = λ tp o s. some (Dict.put tp o s);
  has_assigned = refl;
  has_seek = refl;
  seek_lem = seek_law;
}

abbrev processed : Offsets
processed = (orders, 41) ∷ (events, 7) ∷ []

abbrev fresh : Runtime
fresh = record {
  assignments = [];
  cursor = init [];
  controls = controller [];
  changes = 0;
  rebalances = 0;
}

abbrev targets : Offsets
targets = normalize_checkpoint_offsets (raw (build_checkpoint (events, 7) processed))

targets_run : targets ≡ ((events, 7) ∷ (orders, 41) ∷ [])
unfolding normalize_checkpoint_offsets read_place read_raw store read_items read_offsets or_place
    build_checkpoint sorted_items item_leb sort insert codes_leb Dict.put
targets_run = refl

all_run : assignment_contains_all (able.assigned []) ((events, 7) ∷ (orders, 41) ∷ []) ≡ true
unfolding assignment_contains_all assignment_contains names_item names_place
all_run = refl

done_run :
    (apply_initial_positioning
      (some methods)
      (on_cursor (prepare_resume ((events, 7) ∷ (orders, 41) ∷ [])) fresh)
      []).2
    ≡ done
unfolding apply_initial_positioning assignment_contains_all assignment_contains names_item
    names_place is_skipped seek_each sought and_then located positioned seek_from seek_targets
    prepare_resume positioning_targets has_exact_start_offsets mark_positioning_applied Dict.put
done_run = refl

found_run : Dict.get orders processed ≡ some 41
unfolding Dict.get
found_run = refl

apart_run : Dict.Distinct processed
unfolding Dict.get
apart_run = (refl, (refl, tt))

resume_from_checkpoint_example :
    Dict.get orders
      (apply_initial_positioning (some methods) (on_cursor (prepare_resume targets) fresh) []).1
    ≡ some 42
resume_from_checkpoint_example =
    resume_from_checkpoint methods able fresh [] (events, 7) processed orders 41 refl apart_run
      (subst (λ t. assignment_contains_all (able.assigned []) t ≡ true) (sym targets_run) all_run)
      (subst
        (λ t.
          (apply_initial_positioning (some methods) (on_cursor (prepare_resume t) fresh) []).2
          ≡ done)
        (sym targets_run) done_run)
      found_run
