-- ===== src/Kafka/Resume.antt =====
-- kafka/sources/_cursor_state.py: `normalize_checkpoint_offsets`, which reads the checkpoint that
-- a pipeline hands back. A checkpoint is a `dict` of values of any type; here a key is missing or
-- has a value of the type that `current_checkpoint` writes.
use agora_etl_plugins.Common.Dict
use agora_etl_plugins.Common.Dict.{
  Dict, put_all, Distinct, get-put_all, get-sort, sort-Distinct, or_else, put-Distinct,
}
use agora_etl_plugins.Common.Sort.{sort}
use agora_etl_plugins.Common.{
  ℕ, ◌≡◌, refl, ap, ◌∙◌, beq_refl, arith, String, false, Option, none, some, List, [], ◌∷◌, map,
  string_eq, nat_eq, pair_eq,
}
use agora_etl_plugins.Kafka.Cursor.{
  TopicPartition, Offsets, Checkpoint, is_empty, build_checkpoint, sorted_items, item_leb,
}

-- The three keys that say where a record stands.
pub record Place : Type 0 where
  pub topic : Option String
  pub partition : Option ℕ
  pub offset : Option ℕ

-- An item of `offsets`: a `dict`, or something else.
pub data RawItem : Type 0 where
  a_dict : Place → RawItem
  not_a_dict : RawItem

-- `offsets` is none where it is missing, no iterable, a text or a `dict`.
pub record RawCheckpoint : Type 0 where
  pub place : Place
  pub offsets : Option (List RawItem)

-- `{"topic", "partition", "offset"} - set(item)` is empty.
unfoldable pub read_place : Place → Option (TopicPartition × ℕ)
read_place p = elim p.topic [
  | none ↦ none
  | some topic ↦ elim p.partition [
    | none ↦ none
    | some partition ↦ elim p.offset [
      | none ↦ none
      | some offset ↦ some ((topic, partition), offset)
    ]
  ]
]

unfoldable pub read_raw : RawItem → Option (TopicPartition × ℕ)
unfolding read_place
read_raw (a_dict p) = read_place p
read_raw not_a_dict = none

unfoldable pub store : Option (TopicPartition × ℕ) → Offsets → Offsets
store none offsets = offsets
store (some (tp, offset)) offsets = Dict.put tp offset offsets

-- The loop over the items.
unfoldable pub read_items : List RawItem → Offsets → Offsets
unfolding read_raw store
read_items [] offsets = offsets
read_items (i ∷ items) offsets = read_items items (store (read_raw i) offsets)

unfoldable pub read_offsets : Option (List RawItem) → Offsets
unfolding read_items
read_offsets none = []
read_offsets (some items) = read_items items []

unfoldable pub or_place : Offsets → Place → Offsets
unfolding read_place store
or_place [] p = store (read_place p) []
or_place (x ∷ offsets) p = x ∷ offsets

unfoldable pub normalize_checkpoint_offsets : RawCheckpoint → Offsets
unfolding read_offsets or_place
normalize_checkpoint_offsets value = or_place (read_offsets value.offsets) value.place

-- The `dict` that `current_checkpoint` makes.
abbrev pub place_of : TopicPartition × ℕ → Place
place_of ((t, p), o) = record { topic = some t; partition = some p; offset = some o }

abbrev pub raw : Checkpoint → RawCheckpoint
raw c = record {
  place = record { topic = some c.topic; partition = some c.partition; offset = some c.offset };
  offsets = some (map (λ x. a_dict (place_of x)) c.offsets);
}

read_items-map :
    (items : List (TopicPartition × ℕ)) (d : Offsets)
    → read_items (map (λ x. a_dict (place_of x)) items) d ≡ put_all items d
unfolding read_items read_raw store put_all read_place
read_items-map [] d = refl
read_items-map ((tp, o) ∷ items) d = read_items-map items (Dict.put tp o d)

or_else-none : (o : Option ℕ) → or_else o none ≡ o
or_else-none none = refl
or_else-none (some n) = refl

or_place-some :
    (offsets : Offsets) (p : Place) (tp : TopicPartition) (o : ℕ)
    → Dict.get tp offsets ≡ some o
    → or_place offsets p ≡ offsets
unfolding or_place Dict.get
or_place-some [] p tp o h = cc
or_place-some (x ∷ offsets) p tp o h = refl

-- What the items of a checkpoint are read as.
read_offsets-build :
    (seen : TopicPartition × ℕ) (d : Offsets) (tp : TopicPartition)
    → Distinct d
    → Dict.get tp (read_offsets (raw (build_checkpoint seen d)).offsets) ≡ Dict.get tp d
unfolding read_offsets build_checkpoint sorted_items Dict.get
read_offsets-build seen d tp distinct =
    let items = sort item_leb d in
    ap (Dict.get tp) (read_items-map items [])
    ∙ get-put_all tp items [] (sort-Distinct item_leb d distinct)
    ∙ or_else-none _
    ∙ get-sort item_leb tp d distinct

-- The offsets that are read from the checkpoint of the processed offsets are those offsets, where
-- there are any.
pub normalize-build_checkpoint :
    (seen : TopicPartition × ℕ) (d : Offsets) (tp : TopicPartition)
    → Distinct d
    → is_empty d ≡ false
    → Dict.get tp (normalize_checkpoint_offsets (raw (build_checkpoint seen d))) ≡ Dict.get tp d
unfolding normalize_checkpoint_offsets Dict.get
normalize-build_checkpoint seen [] tp distinct h = cc
normalize-build_checkpoint seen ((first, o) ∷ d) tp distinct h =
    let c = raw (build_checkpoint seen ((first, o) ∷ d)) in
    let found = read_offsets-build seen ((first, o) ∷ d) first distinct in
    ap (Dict.get tp) (
      or_place-some (read_offsets c.offsets) c.place first o
        (found ∙ ground (arith, beq_refl first)))
    ∙ read_offsets-build seen ((first, o) ∷ d) tp distinct

store-Distinct : (x : Option (TopicPartition × ℕ)) (d : Offsets) → Distinct d → Distinct (store x d)
unfolding store
store-Distinct none d h = h
store-Distinct (some (tp, o)) d h = put-Distinct tp o d h

read_items-Distinct :
    (items : List RawItem) (d : Offsets) → Distinct d → Distinct (read_items items d)
unfolding read_items
read_items-Distinct [] d h = h
read_items-Distinct (i ∷ items) d h = read_items-Distinct items _ (store-Distinct (read_raw i) d h)

read_offsets-Distinct : (items : Option (List RawItem)) → Distinct (read_offsets items)
unfolding read_offsets
read_offsets-Distinct none = tt
read_offsets-Distinct (some items) = read_items-Distinct items [] tt

or_place-Distinct :
    (offsets : Offsets) (p : Place) → Distinct offsets → Distinct (or_place offsets p)
unfolding or_place
or_place-Distinct [] p h = store-Distinct (read_place p) [] tt
or_place-Distinct (x ∷ offsets) p h = h

-- No partition is read twice.
pub normalize-Distinct : (value : RawCheckpoint) → Distinct (normalize_checkpoint_offsets value)
unfolding normalize_checkpoint_offsets
normalize-Distinct value = or_place-Distinct _ value.place (read_offsets-Distinct value.offsets)
