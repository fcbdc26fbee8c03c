-- ===== src/Kafka/Consumer.antt =====
-- The consumer that kafka/sources/_operator_controls.py and _consumer_runtime.py drive: code of
-- another package, here the methods that it may have (`callable(getattr(consumer, …, None))`) on a
-- state of its own. A call that gives none has raised. And kafka/sources/_rebalance.py:
-- `normalize_assignment_items`, which reads what the consumer and its listener hand over.
use agora_etl_plugins.Common.{
  ℕ, String, Option, none, some, List, [], ◌∷◌, map, ◌≡◌, refl, Bool, not, ◌&&◌, ◌||◌, string_eq,
  nat_eq, pair_eq,
}
use agora_etl_plugins.Common.Sets.{has}
use agora_etl_plugins.Kafka.Cursor.{TopicPartition}

-- An item of an assignment: its attributes, and its first two places if it is a tuple.
pub record Item : Type 0 where
  pub topic : Option String
  pub partition : Option ℕ
  pub places : Option (Option String × Option ℕ)

pub record Methods (S : Type 0) : Type 0 where
  pub assignment : Option (S → List Item)
  pub getmany : Option (S → S)
  pub pause : Option (List TopicPartition → S → Option S)
  pub resume : Option (List TopicPartition → S → Option S)
  pub seek : Option (TopicPartition → ℕ → S → Option S)

unfoldable pub read_item :
    Option String → Option ℕ → Option (Option String × Option ℕ) → Option TopicPartition
read_item (some topic) (some partition) places = some (topic, partition)
read_item (some topic) none places = none
read_item none partition (some (some topic, some place)) = some (topic, place)
read_item none partition places = none

unfoldable pub normalize_item : Item → Option TopicPartition
unfolding read_item
normalize_item i = read_item i.topic i.partition i.places

unfoldable pub keep : Option TopicPartition → List TopicPartition → List TopicPartition
keep none rest = rest
keep (some tp) rest = tp ∷ rest

unfoldable pub normalize_assignment_items : List Item → List TopicPartition
unfolding keep normalize_item
normalize_assignment_items [] = []
normalize_assignment_items (i ∷ items) = keep (normalize_item i) (normalize_assignment_items items)

-- A topic partition as the consumer's package makes it: a named tuple.
abbrev pub topic_partition : TopicPartition → Item
topic_partition (t, p) = record {
  topic = some t;
  partition = some p;
  places = some (some t, some p);
}

-- The normalised items of named tuples, and of plain tuples, are those that they were made of.
pub normalize_assignment_items-map :
    (keys : List TopicPartition) → normalize_assignment_items (map topic_partition keys) ≡ keys
unfolding normalize_assignment_items keep normalize_item read_item
normalize_assignment_items-map [] = refl
normalize_assignment_items-map (k ∷ keys) = rw (normalize_assignment_items-map keys)

-- A consumer that can pause and resume, and tells which partitions are paused: `pause` pauses its
-- targets, `resume` resumes them, and neither touches another partition.
pub record Pausable {S : Type 0} (methods : Methods S) : Type 0 where
  pub paused : TopicPartition → S → Bool
  pub pauses : List TopicPartition → S → Option S
  pub resumes : List TopicPartition → S → Option S
  pub has_pauses : methods.pause ≡ some pauses
  pub has_resumes : methods.resume ≡ some resumes
  pub pauses_lem :
      (targets : List TopicPartition) (s s' : S) (tp : TopicPartition)
      → pauses targets s ≡ some s'
      → paused tp s' ≡ (has tp targets || paused tp s)
  pub resumes_lem :
      (targets : List TopicPartition) (s s' : S) (tp : TopicPartition)
      → resumes targets s ≡ some s'
      → paused tp s' ≡ (not (has tp targets) && paused tp s)
