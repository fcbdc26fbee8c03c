-- ===== src/Kafka/Compaction/Latest.antt =====
-- What the state holds is the latest update of each key, in memory and in the table alike.
use agora_etl_plugins.Common.Dict
use agora_etl_plugins.Common.Dict.{Dict, Distinct, get-put, put-Distinct}
use agora_etl_plugins.Common.{
  ℕ, ◌≡◌, refl, sym, ap, subst, ◌∙◌, String, Bool, true, false, Option, none, some, List, [], ◌∷◌,
  if◌then◌else◌, string_eq, ◌==◌, arith, if-cases, Bool-cases, inl, inr,
}
use agora_etl_plugins.Kafka.Compaction.{
  Row, Table, Codec, State, apply_payload_policy, row_of, spill_rows, spill_to_sqlite, should_spill,
  store, spilled, update,
}

pub record Update (Rec : Type 0) : Type 0 where
  pub sequence : ℕ
  pub storage_key : String
  pub contents : Option Rec

module _ {Rec Payload Text Db : Type 0} (codec : Codec Rec Payload Text)
    (table : Table Db Text) where
  -- The updates, one after the other.
  unfoldable pub update_all : List (Update Rec) → State Rec Db → State Rec Db
  unfolding update
  update_all [] s = s
  update_all (u ∷ us) s = update_all us (update codec table u.sequence u.storage_key u.contents s)

  -- The last of the updates of a key, after what was known before.
  unfoldable pub latest :
      List (Update Rec) → (String → Option (ℕ × Option Rec)) → String → Option (ℕ × Option Rec)
  unfolding apply_payload_policy
  latest [] known k = known k
  latest (u ∷ us) known k =
      latest us
        (λ j.
          if u.storage_key == j
          then some (u.sequence, apply_payload_policy codec table u.contents)
          else known j)
        k

  abbrev pub row_option : Option (ℕ × Option Rec) → Option (Row Text)
  row_option none = none
  row_option (some x) = some (row_of codec table x)

  abbrev pub HoldsIn :
      Option Db → Dict String (ℕ × Option Rec) → (String → Option (ℕ × Option Rec)) → Type 0
  HoldsIn none memory known = Distinct memory × ((k : String) → Dict.get k memory ≡ known k)
  HoldsIn (some d) memory known = (k : String) → table.row k d ≡ row_option (known k)

  -- The state is that of what is known.
  abbrev pub Holds : State Rec Db → (String → Option (ℕ × Option Rec)) → Type 0
  Holds s known = HoldsIn s.conn s.memory known

  abbrev or_row : Option (ℕ × Option Rec) → Option (Row Text) → Option (Row Text)
  or_row none r = r
  or_row (some x) r = some (row_of codec table x)

  -- What a key has in the memory without its first entry is nothing, where that entry is the key's.
  get_rest :
      (k j : String) (x : ℕ × Option Rec) (memory : Dict String (ℕ × Option Rec))
      → Dict.get k memory ≡ none
      → k == j ≡ true
      → Dict.get j memory ≡ none
  get_rest k j x memory new e =
      ap (λ i. Dict.get i memory) (sym ((string_eq.beq_iff k j).0 e)) ∙ new

  row-spill_rows :
      (memory : Dict String (ℕ × Option Rec)) (d : Db) (j : String)
      → Distinct memory
      → ((k : String) (x : ℕ × Option Rec) → Dict.get k memory ≡ some x → table.row k d ≡ none)
      → table.row j (spill_rows codec table memory d) ≡ or_row (Dict.get j memory) (table.row j d)
  unfolding spill_rows Dict.get
  row-spill_rows [] d j distinct fresh = refl
  row-spill_rows ((k, x) ∷ memory) d j distinct fresh =
      let d' = table.insert k (row_of codec table x) d in
      let new = fresh k x (ground (arith, string_eq.beq_iff k k)) in
      row-spill_rows memory d' j distinct.1 (λ i y e. elim (Bool-cases (k == i)) [
        | inl same ↦ let gone = get_rest k i x memory distinct.0 same in cc
        | inr other ↦
            table.insert_lem i k (row_of codec table x) d new ∙ rw other (fresh i y (rw other e))
      ])
      ∙ elim (Bool-cases (k == j)) [
        | inl same ↦ rw same (
            ap (λ m. or_row m (table.row j d')) (get_rest k j x memory distinct.0 same)
            ∙ table.insert_lem j k (row_of codec table x) d new
            ∙ rw same)
        | inr other ↦ rw other (
            ap (or_row (Dict.get j memory))
              (table.insert_lem j k (row_of codec table x) d new ∙ rw other))
      ]

  or_row-none : (o : Option (ℕ × Option Rec)) → or_row o none ≡ row_option o
  or_row-none none = refl
  or_row-none (some x) = refl

  spill_to_sqlite-Holds :
      (s : State Rec Db) (known : String → Option (ℕ × Option Rec))
      → HoldsIn none s.memory known
      → Holds (spill_to_sqlite codec table s) known
  unfolding spill_to_sqlite
  spill_to_sqlite-Holds s known h k =
      row-spill_rows s.memory table.create k h.0 (λ j x e. table.create_lem j)
      ∙ ap (or_row (Dict.get k s.memory)) (table.create_lem k)
      ∙ or_row-none (Dict.get k s.memory)
      ∙ ap row_option (h.1 k)

  spilled-Holds :
      (c : Option Db) (k : String) (s : State Rec Db) (known : String → Option (ℕ × Option Rec))
      → s.conn ≡ c
      → HoldsIn c s.memory known
      → Holds (spilled codec table c k s) known
  unfolding spilled
  spilled-Holds none k s known e h =
      if-cases (λ x. Holds x known) (should_spill codec table s.spill_threshold k s.memory)
        (λ full. spill_to_sqlite-Holds s known h)
        (λ room. subst (λ c. HoldsIn c s.memory known) (sym e) h)
  spilled-Holds (some d) k s known e h = subst (λ c. HoldsIn c s.memory known) (sym e) h

  abbrev known_with :
      String
      → ℕ × Option Rec
      → (String → Option (ℕ × Option Rec))
      → String
      → Option (ℕ × Option Rec)
  known_with k x known j = if k == j then some x else known j

  row_option-if :
      (b : Bool) (x : ℕ × Option Rec) (o : Option (ℕ × Option Rec))
      → (if b then some (row_of codec table x) else row_option o)
        ≡ row_option (if b then some x else o)
  row_option-if true x o = refl
  row_option-if false x o = refl

  store-Holds :
      (c : Option Db) (k : String) (x : ℕ × Option Rec) (s : State Rec Db)
      (known : String → Option (ℕ × Option Rec))
      → s.conn ≡ c
      → HoldsIn c s.memory known
      → Holds (store codec table c k x s) (known_with k x known)
  unfolding store
  store-Holds none k x s known e h =
      subst (λ c. HoldsIn c (Dict.put k x s.memory) (known_with k x known)) (sym e)
        (
          put-Distinct k x s.memory h.0,
          λ j. get-put k j x s.memory ∙ ap (λ o. if k == j then some x else o) (h.1 j),
        )
  store-Holds (some d) k x s known e h = λ j.
      table.upsert_lem j k (row_of codec table x) d
      ∙ ap (λ o. if k == j then some (row_of codec table x) else o) (h j)
      ∙ row_option-if (k == j) x (known j)

  -- Whatever the threshold is, after the updates the state is that of the last update of each key.
  pub update_all-Holds :
      (us : List (Update Rec)) (s : State Rec Db) (known : String → Option (ℕ × Option Rec))
      → Holds s known
      → Holds (update_all us s) (latest us known)
  unfolding update_all latest update
  update_all-Holds [] s known h = h
  update_all-Holds (u ∷ us) s known h =
      let s' = spilled codec table s.conn u.storage_key s in
      let x : ℕ × Option Rec = (u.sequence, apply_payload_policy codec table u.contents) in
      update_all-Holds us (store codec table s'.conn u.storage_key x s')
        (known_with u.storage_key x known)
        (store-Holds s'.conn u.storage_key x s' known refl
          (spilled-Holds s.conn u.storage_key s known refl h))
