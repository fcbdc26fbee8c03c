-- ===== src/Postgres/Flush/Laws.antt =====
-- What the database does, and the values that rows have.
use agora_etl_plugins.Common.{
  ℕ, ◌≡◌, refl, sym, ◌∙◌, Bool, true, false, Option, none, some, List, [], ◌∷◌, ◌++◌, Result, ok,
  raise, Eq, if◌then◌else◌, ◌⊎◌,
}
use agora_etl_plugins.Common.Lists.{each, flatten, flatten-append, each-append}
use agora_etl_plugins.Common.Dict.{Dict}
use agora_etl_plugins.Postgres.Errors.{Raised}
use agora_etl_plugins.Postgres.Preparation.{row_values, extend_params, flatten_rows}
use agora_etl_plugins.Postgres.Flush.{Database}

-- The runs of an action that is retried: each but the last one has raised.
pub data Runs {D E : Type 0} (action : D → D × Option E) : D → D × Option E → Type 0 where
  last : (d : D) → Runs action d (action d)
  again :
      {d d1 : D} {error : E} {r : D × Option E}
      → action d ≡ (d1, some error)
      → Runs action d1 r
      → Runs action d r

-- The documented behaviour of the calls. It is told by what the statements were given and not by what
-- the table makes of it, which differs where rows conflict: `pending` are the values that the
-- statements of the open transaction have been carried out with, in their order, `committed` those of
-- the transactions that were committed, and `staged` those that stand in the staging table. A
-- transaction begins with nothing. A commit that raises may have committed, where only the answer of
-- the server was lost, or is to come when the client has given up.
pub record IsDatabase {K V D : Type 0} (db : Database K V D) : Type 0 where
  pub committed : D → List V
  pub pending : D → List V
  pub staged : D → List V
  pub load_keeps : (d : D) → committed (db.load_target_columns d).0 ≡ committed d
  pub acquire_keeps : (d : D) → committed (db.acquire d).0 ≡ committed d
  pub acquire_begins : (d : D) → (db.acquire d).1 ≡ none → pending (db.acquire d).0 ≡ []
  pub leave_keeps : (d : D) → committed (db.leave d) ≡ committed d
  pub execute_keeps :
      (columns : List K) (n : ℕ) (params : List V) (d : D)
      → committed (db.execute columns n params d).0 ≡ committed d
  pub execute_adds :
      (columns : List K) (n : ℕ) (params : List V) (d : D)
      → (db.execute columns n params d).1 ≡ none
      → pending (db.execute columns n params d).0 ≡ pending d ++ params
  pub copy_keeps :
      (columns : List K) (rows : List (List V)) (d : D)
      → committed (db.copy_rows columns rows d).0 ≡ committed d
  pub copy_adds :
      (columns : List K) (rows : List (List V)) (d : D)
      → (db.copy_rows columns rows d).1 ≡ none
      → pending (db.copy_rows columns rows d).0 ≡ pending d ++ flatten rows
  pub create_keeps : (d : D) → committed (db.create_staging d).0 ≡ committed d
  pub create_empty :
      (d : D)
      → (db.create_staging d).1 ≡ none
      → (staged (db.create_staging d).0 ≡ []) × (pending (db.create_staging d).0 ≡ pending d)
  pub copy_staging_keeps :
      (columns : List K) (rows : List (List V)) (d : D)
      → committed (db.copy_staging columns rows d).0 ≡ committed d
  pub copy_staging_adds :
      (columns : List K) (rows : List (List V)) (d : D)
      → (db.copy_staging columns rows d).1 ≡ none
      → (staged (db.copy_staging columns rows d).0 ≡ staged d ++ flatten rows)
        × (pending (db.copy_staging columns rows d).0 ≡ pending d)
  pub merge_keeps :
      (columns : List K) (d : D) → committed (db.merge_staging columns d).0 ≡ committed d
  pub merge_adds :
      (columns : List K) (d : D)
      → (db.merge_staging columns d).1 ≡ none
      → pending (db.merge_staging columns d).0 ≡ pending d ++ staged d
  pub commit_doubtful :
      (d : D) (error : Raised K)
      → (db.commit d).1 ≡ some error
      → (committed (db.commit d).0 ≡ committed d)
        ⊎ (committed (db.commit d).0 ≡ committed d ++ pending d)
  pub commit_adds :
      (d : D) → (db.commit d).1 ≡ none → committed (db.commit d).0 ≡ committed d ++ pending d
  pub rollback_keeps : (d : D) → committed (db.rollback d).0 ≡ committed d
  pub retry_runs :
      (action : D → D × Option (Raised K)) (d : D)
      → Runs action d ((db.retry_async action d).0, (db.retry_async action d).1)

if-ok :
    {A E : Type 0} (b : Bool) (r : Result E A) (error : E) (a : A)
    → (if b then r else raise error) ≡ ok a
    → r ≡ ok a
if-ok true r error a h = h
if-ok false r error a h = cc

-- The values of some rows at some columns.
abbrev pub HasValues : {K V : Type 0} ⦃e : Eq K⦄ → List K → List (Dict K V) → List V → Type 0
HasValues {V} columns rows values =
    (vss : List (List V)) × (each (row_values columns) rows ≡ some vss) × (values ≡ flatten vss)

module _ {K V : Type 0} ⦃e : Eq K⦄ where
  pub HasValues-append :
      (columns : List K) (xs ys : List (Dict K V)) (values others : List V)
      → HasValues columns xs values
      → HasValues columns ys others
      → HasValues columns (xs ++ ys) (values ++ others)
  HasValues-append columns xs ys values others (vss, h, u) (wss, g, w) = (
    vss ++ wss,
    each-append (row_values columns) xs ys ∙ rw (h, g),
    rw (u, w) (sym (flatten-append vss wss)),
  )

  extend_params-HasValues :
      (columns : List K) (row : Dict K V) (rows : List (Dict K V)) (params : List V)
      → (o : Option (List V)) → row_values columns row ≡ o
      → (r : Result (Raised K) (List V))
      → ((rest : List V) → r ≡ ok rest → HasValues columns rows rest)
      → extend_params o r ≡ ok params
      → HasValues columns (row ∷ rows) params
  unfolding extend_params each flatten
  extend_params-HasValues columns row rows params none q r h g = cc
  extend_params-HasValues columns row rows params (some values) q (raise error) h g = cc
  extend_params-HasValues columns row rows params (some values) q (ok rest) h g =
      let (vss, u, w) = h rest refl in (values ∷ vss, rw (q, u), cc)

  pub flatten_rows-HasValues :
      (columns : List K) (rows : List (Dict K V)) (params : List V)
      → flatten_rows rows columns ≡ ok params
      → HasValues columns rows params
  unfolding flatten_rows each flatten
  flatten_rows-HasValues columns [] params h = ([], refl, cc)
  flatten_rows-HasValues columns (row ∷ rows) params h =
      extend_params-HasValues columns row rows params (row_values columns row) refl
        (flatten_rows rows columns) (λ rest g. flatten_rows-HasValues columns rows rest g)
        (if-ok _ _ _ _ h)
