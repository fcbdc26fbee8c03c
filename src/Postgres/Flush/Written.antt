-- ===== src/Postgres/Flush/Written.antt =====
-- What the statements of a batch add to the transaction.
use mathlib.Core.List.{append-nil, append_assoc}
use agora_etl_plugins.Common.{
  ℕ, ◌≡◌, refl, sym, ap, ◌∙◌, subst, Option, none, some, List, [], ◌∷◌, ◌++◌, length, Result, ok,
  raise, Eq,
}
use agora_etl_plugins.Common.Lists.{each, flatten}
use agora_etl_plugins.Common.Dict.{Dict}
use agora_etl_plugins.Postgres.Errors.{Raised}
use agora_etl_plugins.Postgres.Preparation.{
  WriteBatch, Limits, row_values, flatten_rows, iter_sql_chunks,
}
use agora_etl_plugins.Postgres.Preparation.Statements.{iter_sql_chunks-IsWithin}
use agora_etl_plugins.Postgres.Flush.{
  Database, InsertMode, insert, copy, copy_merge, and_then, execute_params, execute_chunks,
  copy_values, execute_batch, execute_batches,
}
use agora_etl_plugins.Postgres.Flush.Laws.{
  IsDatabase, HasValues, HasValues-append, flatten_rows-HasValues,
}

-- What a statement did: it added some values to the transaction, or it raised; nothing is committed.
module _ {K V D : Type 0} ⦃e : Eq K⦄ (db : Database K V D) (laws : IsDatabase db) where
  open laws use {committed, pending, staged}

  abbrev pub Wrote : (List V → Type 0) → D → D × Option (Raised K) → Type 0
  Wrote P d (d', some error) = committed d' ≡ committed d
  Wrote P d (d', none) =
      (committed d' ≡ committed d)
      × (values : List V) × P values
      × (pending d' ≡ pending d ++ values)

  Wrote-intro :
      (P : List V → Type 0) (d : D) (values : List V) (r : D × Option (Raised K))
      → committed r.0 ≡ committed d
      → (r.1 ≡ none → P values × (pending r.0 ≡ pending d ++ values))
      → Wrote P d r
  Wrote-intro P d values (d', some error) same added = same
  Wrote-intro P d values (d', none) same added =
      let more = added refl in (same, values, more.0, more.1)

  joined :
      (P Q R : List V → Type 0) (d d1 : D)
      → Wrote P d (d1, none)
      → ((values others : List V) → P values → Q others → R (values ++ others))
      → (r : D × Option (Raised K)) → Wrote Q d1 r
      → Wrote R d r
  joined P Q R d d1 (same, values, p, added) join (d', some error) second = second ∙ same
  joined P Q R d d1 (same, values, p, added) join (d', none) (same', others, q, added') = (
    same' ∙ same,
    values ++ others,
    join values others p q,
    added' ∙ ap (λ l. l ++ others) added ∙ append_assoc (pending d) values others,
  )

  pub and_then-Wrote :
      (P Q R : List V → Type 0) (d : D) (r : D × Option (Raised K))
      → (next : D → D × Option (Raised K)) → Wrote P d r
      → ((d1 : D) → Wrote Q d1 (next d1))
      → ((values others : List V) → P values → Q others → R (values ++ others))
      → Wrote R d (and_then db r next)
  unfolding and_then
  and_then-Wrote P Q R d (d1, some error) next first second join = first
  and_then-Wrote P Q R d (d1, none) next first second join =
      joined P Q R d d1 first join (next d1) (second d1)

  execute_params-Wrote :
      (columns : List K) (rows : List (Dict K V)) (n : ℕ) (d : D) (r : Result (Raised K) (List V))
      → ((params : List V) → r ≡ ok params → HasValues columns rows params)
      → Wrote (HasValues columns rows) d (execute_params db r columns n d)
  unfolding execute_params
  execute_params-Wrote columns rows n d (raise error) h = refl
  execute_params-Wrote columns rows n d (ok params) h =
      Wrote-intro (HasValues columns rows) d params (db.execute columns n params d)
        (laws.execute_keeps columns n params d)
        (λ quiet. (h params refl, laws.execute_adds columns n params d quiet))

  execute_chunks-Wrote :
      (columns : List K) (chunks : List (List (Dict K V))) (d : D)
      → Wrote (HasValues columns (flatten chunks)) d (execute_chunks db chunks columns d)
  unfolding execute_chunks flatten each
  execute_chunks-Wrote columns [] d = (refl, [], ([], refl, refl), sym (append-nil (pending d)))
  execute_chunks-Wrote columns (chunk ∷ chunks) d =
      and_then-Wrote (HasValues columns chunk) (HasValues columns (flatten chunks))
        (HasValues columns (chunk ++ flatten chunks)) d
        (execute_params db (flatten_rows chunk columns) columns (length chunk) d)
        (execute_chunks db chunks columns)
        (execute_params-Wrote columns chunk (length chunk) d (flatten_rows chunk columns)
          (flatten_rows-HasValues columns chunk))
        (execute_chunks-Wrote columns chunks) (HasValues-append columns chunk (flatten chunks))

  abbrev pub BatchValues : WriteBatch K V → List V → Type 0
  BatchValues b = HasValues b.columns b.rows

  copy_values-Wrote :
      (b : WriteBatch K V) (d : D) (o : Option (List (List V)))
      → each (row_values b.columns) b.rows ≡ o
      → Wrote (BatchValues b) d (copy_values db (db.copy_rows b.columns) o d)
  unfolding copy_values
  copy_values-Wrote b d none h = refl
  copy_values-Wrote b d (some vss) h =
      Wrote-intro (BatchValues b) d (flatten vss) (db.copy_rows b.columns vss d)
        (laws.copy_keeps b.columns vss d)
        (λ quiet. ((vss, h, refl), laws.copy_adds b.columns vss d quiet))

  -- What the staging table has got, and the same once it is merged.
  abbrev Staged : (List V → Type 0) → D → D × Option (Raised K) → Type 0
  Staged P d (d', some error) = committed d' ≡ committed d
  Staged P d (d', none) = (committed d' ≡ committed d) × P (staged d') × (pending d' ≡ pending d)

  Staged-intro :
      (P : List V → Type 0) (d : D) (r : D × Option (Raised K))
      → committed r.0 ≡ committed d
      → (r.1 ≡ none → P (staged r.0) × (pending r.0 ≡ pending d))
      → Staged P d r
  Staged-intro P d (d', some error) same added = same
  Staged-intro P d (d', none) same added = let more = added refl in (same, more.0, more.1)

  rebase :
      (P : List V → Type 0) (d d1 : D) (r : D × Option (Raised K))
      → committed d1 ≡ committed d
      → pending d1 ≡ pending d
      → Wrote P d1 r
      → Wrote P d r
  rebase P d d1 (d', some error) same kept w = w ∙ same
  rebase P d d1 (d', none) same kept (w, values, p, added) =
      (w ∙ same, values, p, added ∙ ap (λ l. l ++ values) kept)

  copy_staging-Staged :
      (b : WriteBatch K V) (d : D) (o : Option (List (List V)))
      → each (row_values b.columns) b.rows ≡ o
      → staged d ≡ []
      → Staged (BatchValues b) d (copy_values db (db.copy_staging b.columns) o d)
  unfolding copy_values
  copy_staging-Staged b d none h empty = refl
  copy_staging-Staged b d (some vss) h empty =
      Staged-intro (BatchValues b) d (db.copy_staging b.columns vss d)
        (laws.copy_staging_keeps b.columns vss d)
        (λ quiet.
          let (stage, kept) = laws.copy_staging_adds b.columns vss d quiet in
          ((vss, h, stage ∙ ap (λ l. l ++ flatten vss) empty), kept))

  merged :
      (b : WriteBatch K V) (d : D) (r : D × Option (Raised K))
      → Staged (BatchValues b) d r
      → Wrote (BatchValues b) d (and_then db r (db.merge_staging b.columns))
  unfolding and_then
  merged b d (d', some error) h = h
  merged b d (d', none) (same, values, kept) =
      Wrote-intro (BatchValues b) d (staged d') (db.merge_staging b.columns d')
        (laws.merge_keeps b.columns d' ∙ same)
        (λ quiet. (values, laws.merge_adds b.columns d' quiet ∙ ap (λ l. l ++ staged d') kept))

  created :
      (b : WriteBatch K V) (d : D) (r : D × Option (Raised K))
      → committed r.0 ≡ committed d
      → (r.1 ≡ none → (staged r.0 ≡ []) × (pending r.0 ≡ pending d))
      → Wrote (BatchValues b) d (
          and_then db r (λ d1.
            and_then db
              (copy_values db (db.copy_staging b.columns) (each (row_values b.columns) b.rows) d1)
              (db.merge_staging b.columns)))
  unfolding and_then
  created b d (d', some error) same h = same
  created b d (d', none) same h =
      let begun = h refl in
      let inner =
        copy_values db (db.copy_staging b.columns) (each (row_values b.columns) b.rows) d' in
      rebase (BatchValues b) d d' (and_then db inner (db.merge_staging b.columns)) same begun.1
        (merged b d' inner (copy_staging-Staged b d' _ refl begun.0))

  pub execute_batch-Wrote :
      (mode : InsertMode) (limits : Limits) (b : WriteBatch K V) (d : D)
      → Wrote (BatchValues b) d (execute_batch db mode limits b d)
  unfolding execute_batch
  execute_batch-Wrote insert limits b d =
      subst (λ rows. Wrote (HasValues b.columns rows) d (execute_batch db insert limits b d))
        (iter_sql_chunks-IsWithin limits b.rows b.columns).0
        (execute_chunks-Wrote b.columns (iter_sql_chunks limits b.rows b.columns) d)
  execute_batch-Wrote copy limits b d = copy_values-Wrote b d _ refl
  execute_batch-Wrote copy_merge limits b d =
      created b d (db.create_staging d) (laws.create_keeps d) (laws.create_empty d)

  -- The values of some batches, one batch after the other.
  abbrev pub BatchesValues : List (WriteBatch K V) → List V → Type 0
  BatchesValues [] values = values ≡ []
  BatchesValues (b ∷ batches) values =
      (first rest : List V) × BatchValues b first
      × BatchesValues batches rest
      × (values ≡ first ++ rest)

  pub execute_batches-Wrote :
      (mode : InsertMode) (limits : Limits) (batches : List (WriteBatch K V)) (d : D)
      → Wrote (BatchesValues batches) d (execute_batches db mode limits batches d)
  unfolding execute_batches
  execute_batches-Wrote mode limits [] d = (refl, [], refl, sym (append-nil (pending d)))
  execute_batches-Wrote mode limits (b ∷ batches) d =
      and_then-Wrote (BatchValues b) (BatchesValues batches) (BatchesValues (b ∷ batches)) d
        (execute_batch db mode limits b d) (execute_batches db mode limits batches)
        (execute_batch-Wrote mode limits b d) (execute_batches-Wrote mode limits batches)
        (λ first rest p q. (first, rest, p, q, refl))
