-- ===== src/Kafka/Compaction/Tables.antt =====
-- A table of rows as a dictionary, which does what the statements ask for, and a codec for records
-- that are numbers.
use agora_etl_plugins.Common.Dict
use agora_etl_plugins.Common.Dict.{Dict, Distinct, get-put, put-Distinct}
use agora_etl_plugins.Common.{
  ℕ, ◌≡◌, refl, sym, ap, subst, ◌∙◌, String, Bool, true, false, Option, none, some, List, [], ◌∷◌,
  string_eq, In, ◌==◌, ◌⊎◌, inl, inr, Bool-cases,
}
use agora_etl_plugins.Kafka.Compaction.{Row, Table, Codec}

abbrev pub Rows : Type 0 → Type 0
Rows Text = (d : Dict String (Row Text)) × Distinct d

pub get_nil : {V : Type 0} (k : String) → Dict.get {V = V} k [] ≡ none
unfolding Dict.get
get_nil k = refl

module _ {Text : Type 0} where
  pick : String → ℕ → Option Text → Bool → List (String × ℕ × Text) → List (String × ℕ × Text)
  pick k n (some t) false rest = (k, n, t) ∷ rest
  pick k n _ _ rest = rest

  pub select : Dict String (Row Text) → List (String × ℕ × Text)
  unfolding pick
  select [] = []
  select ((k, r) ∷ d) = pick k r.sequence r.payload r.deleted (select d)

  abbrev pub live_row : ℕ → Text → Row Text
  live_row n t = record { sequence = n; payload = some t; deleted = false }

  In-pick :
      (x : String × ℕ × Text) (k : String) (n : ℕ) (p : Option Text) (b : Bool)
      (rest : List (String × ℕ × Text))
      → In x (pick k n p b rest)
      → ((k ≡ x.0)
          × (◌≡◌ {A = Row Text}
              (record { sequence = n; payload = p; deleted = b })
              (live_row x.1 x.2)))
        ⊎ In x rest
  unfolding pick
  In-pick x k n none b rest h = inr h
  In-pick x k n (some t) true rest h = inr h
  In-pick x k n (some t) false rest (inl same) =
      inl (λ i. (same i).0, λ i. live_row (same i).1 (same i).2)
  In-pick x k n (some t) false rest (inr h) = inr h

  In-pick_later :
      (x : String × ℕ × Text) (k : String) (n : ℕ) (p : Option Text) (b : Bool)
      (rest : List (String × ℕ × Text))
      → In x rest
      → In x (pick k n p b rest)
  unfolding pick
  In-pick_later x k n none b rest h = h
  In-pick_later x k n (some t) true rest h = h
  In-pick_later x k n (some t) false rest h = inr h

  In-pick_here :
      (k : String) (r : Row Text) (n : ℕ) (t : Text) (rest : List (String × ℕ × Text))
      → r ≡ live_row n t
      → In (k, n, t) (pick k r.sequence r.payload r.deleted rest)
  unfolding pick
  In-pick_here k r n t rest e =
      subst (λ (q : Row Text). In (k, n, t) (pick k q.sequence q.payload q.deleted rest)) (sym e)
        (inl refl)

  pub In-select :
      (d : Dict String (Row Text)) (k : String) (n : ℕ) (t : Text)
      → Distinct d
      → In (k, n, t) (select d)
      → Dict.get k d ≡ some (live_row n t)
  unfolding select Dict.get
  In-select [] k n t distinct h = elim h [ ]
  In-select ((j, r) ∷ d) k n t distinct h =
      elim (In-pick (k, n, t) j r.sequence r.payload r.deleted (select d) h) [
        | inl (same, row) ↦ rw ((string_eq.beq_iff j k).1 same) (ap some row)
        | inr later ↦
            let found = In-select d k n t distinct.1 later in
            elim (Bool-cases (j == k)) [
              | inl same ↦
                  let gone =
                    ap (λ i. Dict.get i d) (sym ((string_eq.beq_iff j k).0 same)) ∙ distinct.0 in
                  cc
              | inr other ↦ rw other found
            ]
      ]

  pub select-In :
      (d : Dict String (Row Text)) (k : String) (n : ℕ) (t : Text)
      → Dict.get k d ≡ some (live_row n t)
      → In (k, n, t) (select d)
  unfolding select Dict.get
  select-In [] k n t h = cc
  select-In ((j, r) ∷ d) k n t h = elim (Bool-cases (j == k)) [
    | inl same ↦
        let h' : some r ≡ some (live_row n t) = rw same at h in
        let e : r ≡ live_row n t = cc in
        let place = (string_eq.beq_iff j k).0 same in
        subst (λ i. In (i, n, t) (pick j r.sequence r.payload r.deleted (select d))) place
          (In-pick_here j r n t (select d) e)
    | inr other ↦
        In-pick_later (k, n, t) j r.sequence r.payload r.deleted (select d)
          (select-In d k n t (rw other at h))
  ]

  abbrev pub dict_table : Table (Rows Text) Text
  dict_table = record {
    create = ([], tt);
    insert = λ k r d. (Dict.put k r d.0, put-Distinct k r d.0 d.1);
    upsert = λ k r d. (Dict.put k r d.0, put-Distinct k r d.0 d.1);
    select_live = λ d. select d.0;
    row = λ k d. Dict.get k d.0;
    create_lem = λ k. get_nil k;
    insert_lem = λ j k r d new. get-put k j r d.0;
    upsert_lem = λ j k r d. get-put k j r d.0;
    select_live_lem = λ d k n t. (In-select d.0 k n t d.1, select-In d.0 k n t);
  }

-- A record is its payload and its JSON, and keeps no storage key.
abbrev pub codec : Codec ℕ ℕ ℕ
codec = record {
  mode = none;
  record_to_payload = λ r. r;
  payload_to_record = λ n. n;
  storage_id = λ r. none;
  with_storage_id = λ k r. r;
  dumps = λ n. n;
  loads = λ n. n;
  has_pipeline_id = λ n. true;
  encrypt_payload = λ n. n;
  decode_stored_payload = λ n. some n;
}
