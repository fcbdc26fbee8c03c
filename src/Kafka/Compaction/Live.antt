-- ===== src/Kafka/Compaction/Live.antt =====
-- The live records: in memory and from the table alike, they are the latest of their keys.
use agora_etl_plugins.Common.Dict
use agora_etl_plugins.Common.Dict.{Dict, Distinct}
use agora_etl_plugins.Common.Sort.{sort, In-sort}
use agora_etl_plugins.Common.{
  ℕ, ◌≡◌, refl, sym, ap, ◌∙◌, ◌↔◌, ◌≢◌, String, false, Option, none, some, List, [], ◌∷◌, string_eq,
  ◌==◌, arith, Bool-cases, inl, inr, In,
}
use agora_etl_plugins.Kafka.Compaction.{
  Row, Table, Codec, State, initial, record_payload_json, by_sequence, live_values, restore,
  keep_row, restore_rows, live_from, live_records,
}
use agora_etl_plugins.Kafka.Compaction.Latest.{
  Update, update_all, latest, update_all-Holds, HoldsIn, row_option,
}

module _ {Rec Payload Text Db : Type 0} (codec : Codec Rec Payload Text)
    (table : Table Db Text) where
  abbrev Memory : Type 0
  Memory = Dict String (ℕ × Option Rec)

  get_later :
      (j k : String) (x y : ℕ × Option Rec) (m : Memory)
      → Dict.get k m ≡ none
      → Dict.get j m ≡ some y
      → Dict.get j ((k, x) ∷ m) ≡ some y
  unfolding Dict.get
  get_later j k x y m new h = elim (Bool-cases (k == j)) [
    | inl same ↦
        let gone = ap (λ i. Dict.get i m) (sym ((string_eq.beq_iff k j).0 same)) ∙ new in cc
    | inr other ↦ rw other h
  ]

  live_values-get :
      (m : Memory) (n : ℕ) (r : Rec)
      → Distinct m
      → In (n, r) (live_values codec table m)
      → (k : String) × (Dict.get k m ≡ some (n, some r))
  unfolding live_values Dict.get
  live_values-get [] n r distinct h = elim h [ ]
  live_values-get ((k, (n', none)) ∷ m) n r distinct h =
      let (j, found) = live_values-get m n r distinct.1 h in
      (j, get_later j k (n', none) (n, some r) m distinct.0 found)
  live_values-get ((k, (n', some r')) ∷ m) n r distinct (inl same) =
      (k, ground (arith, string_eq.beq_iff k k) ∙ ap (λ (x : ℕ × Rec). some (x.0, some x.1)) same)
  live_values-get ((k, (n', some r')) ∷ m) n r distinct (inr later) =
      let (j, found) = live_values-get m n r distinct.1 later in
      (j, get_later j k (n', some r') (n, some r) m distinct.0 found)

  get-live_values :
      (m : Memory) (n : ℕ) (r : Rec) (k : String)
      → Dict.get k m ≡ some (n, some r)
      → In (n, r) (live_values codec table m)
  unfolding live_values Dict.get
  get-live_values [] n r k h = cc
  get-live_values ((j, (n', none)) ∷ m) n r k h = elim (Bool-cases (j == k)) [
    | inl same ↦
        let h' : ◌≡◌ {A = Option (ℕ × Option Rec)} (some (n', none)) (some (n, some r)) =
          rw same at h in
        cc
    | inr other ↦ get-live_values m n r k (rw other at h)
  ]
  get-live_values ((j, (n', some r')) ∷ m) n r k h = elim (Bool-cases (j == k)) [
    | inl same ↦
        let h' : some (n', some r') ≡ some (n, some r) = rw same at h in
        let e : n' ≡ n = cc in let f : r' ≡ r = cc in inl (λ i. (e i, f i))
    | inr other ↦ inr (get-live_values m n r k (rw other at h))
  ]

  -- What the rows of the table are read as.
  IsRestored : List (String × ℕ × Text) → Option (List (ℕ × Rec)) → Type 0
  IsRestored rows none = ⊥
  IsRestored rows (some l) =
      (n : ℕ) (r : Rec)
      → In (n, r) l
        ↔ ((k : String) × (t : Text) × In (k, n, t) rows × (restore codec table k t ≡ some r))

  keep_row-IsRestored :
      (k : String) (n : ℕ) (t : Text) (rows : List (String × ℕ × Text)) (o : Option Rec)
      (rest : Option (List (ℕ × Rec)))
      → restore codec table k t ≡ o
      → o ≢ none
      → IsRestored rows rest
      → IsRestored ((k, n, t) ∷ rows) (keep_row codec table n o rest)
  unfolding IsRestored
  keep_row-IsRestored k n t rows none rest e sound h = elim (sound refl) [ ]
  keep_row-IsRestored k n t rows (some r) none e sound h = h
  keep_row-IsRestored k n t rows (some r) (some l) e sound h = λ m q. (
    λ found. elim found [
      | inl same ↦ (k, t, inl (λ i. (k, (same i).0, t)), e ∙ ap (λ (x : ℕ × Rec). some x.1) same)
      | inr later ↦ let (j, u, place, read) = (h m q).0 later in (j, u, inr place, read)
    ],
    λ x. elim x.2 [
      | inl same ↦
          let read : some r ≡ some q =
            sym e ∙ ap (λ (y : String × ℕ × Text). restore codec table y.0 y.2) same ∙ x.3 in
          let q_same : r ≡ q = cc in inl (λ i. ((same i).1, q_same i))
      | inr later ↦ inr ((h m q).1 (x.0, x.1, later, x.3))
    ],
  )

  restore_rows-IsRestored :
      (rows : List (String × ℕ × Text))
      → ((k : String) (n : ℕ) (t : Text) → In (k, n, t) rows → restore codec table k t ≢ none)
      → IsRestored rows (restore_rows codec table rows)
  unfolding restore_rows IsRestored
  restore_rows-IsRestored [] sound = λ n r. (λ h. elim h [ ], λ h. elim h.2 [ ])
  restore_rows-IsRestored ((k, n, t) ∷ rows) sound =
      keep_row-IsRestored k n t rows (restore codec table k t) (restore_rows codec table rows) refl
        (sound k n t (inl refl)) (restore_rows-IsRestored rows (λ j m u h. sound j m u (inr h)))

  abbrev payload_of : Option (Row Text) → Option Text
  payload_of none = none
  payload_of (some x) = x.payload

  abbrev sequence_of : Option (Row Text) → ℕ
  sequence_of none = 0
  sequence_of (some x) = x.sequence

  row_option-live :
      (o : Option (ℕ × Option Rec)) (n : ℕ) (t : Text)
      → row_option codec table o ≡ some (record { sequence = n; payload = some t; deleted = false })
      → (r : Rec) × (o ≡ some (n, some r)) × (record_payload_json codec table r ≡ t)
  row_option-live none n t h = cc
  row_option-live (some (m, none)) n t h = let none_stored = ap payload_of h in cc
  row_option-live (some (m, some r)) n t h =
      let e : ◌≡◌ {A = Option Text} (some (record_payload_json codec table r)) (some t) =
        ap payload_of h in
      let same : m ≡ n = ap sequence_of h in (r, ap (λ i. some (i, some r)) same, cc)

  -- The record of a key reads back from the table as it is.
  abbrev pub ReadsBack : (String → Option (ℕ × Option Rec)) → Type 0
  ReadsBack known =
      (k : String) (n : ℕ) (r : Rec)
      → known k ≡ some (n, some r)
      → restore codec table k (record_payload_json codec table r) ≡ some r

  -- The live records are the latest of their keys.
  unfoldable pub AreLatest : (String → Option (ℕ × Option Rec)) → Option (List (ℕ × Rec)) → Type 0
  AreLatest known none = ⊥
  AreLatest known (some l) =
      (n : ℕ) (r : Rec) → In (n, r) l ↔ ((k : String) × (known k ≡ some (n, some r)))

  live_memory-AreLatest :
      (m : Memory) (known : String → Option (ℕ × Option Rec))
      → HoldsIn codec table none m known
      → AreLatest known (some (sort (by_sequence codec table) (live_values codec table m)))
  unfolding AreLatest
  live_memory-AreLatest m known h n r =
      let sorted = In-sort (by_sequence codec table) (n, r) (live_values codec table m) in
      (
        λ found. let (k, e) = live_values-get m n r h.0 (sorted.0 found) in (k, sym (h.1 k) ∙ e),
        λ x. sorted.1 (get-live_values m n r x.0 (h.1 x.0 ∙ x.1)),
      )

  table-AreLatest :
      (d : Db) (known : String → Option (ℕ × Option Rec))
      → ((k : String) → table.row k d ≡ row_option codec table (known k))
      → ReadsBack known
      → (o : Option (List (ℕ × Rec))) → IsRestored (table.select_live d) o
      → AreLatest known o
  unfolding IsRestored AreLatest
  table-AreLatest d known h back none restored = restored
  table-AreLatest d known h back (some l) restored = λ n r. (
    λ found.
        let (k, t, place, read) = (restored n r).0 found in
        let (q, latest_of, stored) =
          row_option-live (known k) n t (sym (h k) ∙ (table.select_live_lem d k n t).0 place) in
        let same : some q ≡ some r =
          sym (back k n q latest_of) ∙ ap (restore codec table k) stored ∙ read in
        let q_same : q ≡ r = cc in (k, latest_of ∙ ap (λ x. some (n, some x)) q_same),
    λ x.
        let k = x.0 in
        let stored = h k ∙ ap (row_option codec table) x.1 in
        (restored n r).1 (
          k,
          record_payload_json codec table r,
          (table.select_live_lem d k n (record_payload_json codec table r)).1 stored,
          back k n r x.1,
        ),
  )

  table_restores :
      (d : Db) (known : String → Option (ℕ × Option Rec))
      → ((k : String) → table.row k d ≡ row_option codec table (known k))
      → ReadsBack known
      → (k : String) (n : ℕ) (t : Text) → In (k, n, t) (table.select_live d)
      → restore codec table k t ≢ none
  table_restores d known h back k n t place nothing =
      let (q, latest_of, stored) =
        row_option-live (known k) n t (sym (h k) ∙ (table.select_live_lem d k n t).0 place) in
      let found = sym (back k n q latest_of) ∙ ap (restore codec table k) stored ∙ nothing in cc

  live_from-AreLatest :
      (c : Option Db) (s : State Rec Db) (known : String → Option (ℕ × Option Rec))
      → HoldsIn codec table c s.memory known
      → ReadsBack known
      → AreLatest known (live_from codec table c s)
  unfolding live_from AreLatest
  live_from-AreLatest none s known h back = live_memory-AreLatest s.memory known h
  live_from-AreLatest (some d) s known h back =
      table-AreLatest d known h back (restore_rows codec table (table.select_live d))
        (restore_rows-IsRestored (table.select_live d) (table_restores d known h back))

  -- Whatever the threshold is, and so whether the state was moved to the table or not, the live
  -- records after any updates are exactly the latest of each key that was not deleted last, with
  -- the sequence number of that update. This holds where a record that the policy went over reads
  -- back from its JSON as it is.
  pub live_records-AreLatest :
      (threshold : Option ℕ) (us : List (Update Rec))
      → ReadsBack (latest codec table us (λ k. none))
      → AreLatest
          (latest codec table us (λ k. none))
          (live_records codec table (update_all codec table us (initial threshold)))
  unfolding live_records Dict.get AreLatest
  live_records-AreLatest threshold us back =
      let s = update_all codec table us (initial threshold) in
      live_from-AreLatest s.conn s (latest codec table us (λ k. none))
        (update_all-Holds codec table us (initial threshold) (λ k. none) (tt, λ k. refl)) back
