-- ===== src/Postgres/Flush/Transactions.antt =====
-- What a transaction commits, however often it is tried.
use mathlib.Core.List.{append-nil, append_assoc}
use agora_etl_plugins.Common.{
  ◌≡◌, refl, sym, ap, ◌∙◌, subst, Option, none, some, List, [], ◌++◌, Eq, ◌⊎◌, inl, inr,
}
use agora_etl_plugins.Postgres.Errors.{Raised}
use agora_etl_plugins.Postgres.Flush.{
  Database, InsertMode, insert, copy, copy_merge, and_then, roll_back, left, in_transaction,
  with_retries,
}
use agora_etl_plugins.Postgres.Flush.Laws.{Runs, last, again, IsDatabase}
use agora_etl_plugins.Postgres.Flush.Written.{Wrote}

module _ {K V D : Type 0} ⦃e : Eq K⦄ (db : Database K V D) (laws : IsDatabase db) where
  open laws use {committed, pending}

  -- The values of some transactions, one after the other, each of which was committed by a commit
  -- that raised.
  pub data Doubtful (P : List V → Type 0) : List V → Type 0 where
    nothing : Doubtful P []
    answer_lost :
        {values rest : List V} (d : D) (error : Raised K)
        → P values
        → (db.commit d).1 ≡ some error
        → Doubtful P rest
        → Doubtful P (values ++ rest)

  pub Doubtful-append :
      (P : List V → Type 0) (xs ys : List V) → Doubtful P xs → Doubtful P ys → Doubtful P (xs ++ ys)
  Doubtful-append P xs ys nothing h = h
  Doubtful-append P xs ys (answer_lost {values} {rest} d error p lost more) h =
      subst (Doubtful P) (sym (append_assoc values rest ys))
        (answer_lost d error p lost (Doubtful-append P rest ys more h))

  -- Only tries whose commit raised have committed their values.
  abbrev pub Tried : (List V → Type 0) → D → D → Type 0
  Tried P d d' =
      (doubtful : List V) × Doubtful P doubtful × (committed d' ≡ committed d ++ doubtful)

  -- After such tries, one has committed its values and returned.
  abbrev pub Done : (List V → Type 0) → D → D → Type 0
  Done P d d' =
      (doubtful : List V) × Doubtful P doubtful
      × (values : List V) × P values
      × (committed d' ≡ (committed d ++ doubtful) ++ values)

  -- What a transaction did, in one try or in some.
  abbrev pub Committed : (List V → Type 0) → D → D × Option (Raised K) → Type 0
  Committed P d (d', some error) = Tried P d d'
  Committed P d (d', none) = Done P d d'

  Doubtful-map :
      (P Q : List V → Type 0) (xs : List V)
      → ((values : List V) → P values → Q values)
      → Doubtful P xs
      → Doubtful Q xs
  Doubtful-map P Q xs f nothing = nothing
  Doubtful-map P Q xs f (answer_lost {values} {rest} d error p lost more) =
      answer_lost d error (f values p) lost (Doubtful-map P Q rest f more)

  pub Tried-map :
      (P Q : List V → Type 0) (d d1 d' : D)
      → ((values : List V) → P values → Q values)
      → committed d1 ≡ committed d
      → Tried P d1 d'
      → Tried Q d d'
  Tried-map P Q d d1 d' f same (doubtful, q, law) =
      (doubtful, Doubtful-map P Q doubtful f q, law ∙ ap (λ l. l ++ doubtful) same)

  pub Done-map :
      (P Q : List V → Type 0) (d d1 d' : D)
      → ((values : List V) → P values → Q values)
      → committed d1 ≡ committed d
      → Done P d1 d'
      → Done Q d d'
  Done-map P Q d d1 d' f same (doubtful, q, values, p, law) = (
    doubtful,
    Doubtful-map P Q doubtful f q,
    values,
    f values p,
    law ∙ ap (λ l. (l ++ doubtful) ++ values) same,
  )

  -- After some tries more.
  Committed-after :
      (P : List V → Type 0) (d d1 : D) (before : List V) (r : D × Option (Raised K))
      → Doubtful P before
      → committed d1 ≡ committed d ++ before
      → Committed P d1 r
      → Committed P d r
  Committed-after P d d1 before (d', some error) b same (doubtful, q, law) = (
    before ++ doubtful,
    Doubtful-append P before doubtful b q,
    law ∙ ap (λ l. l ++ doubtful) same ∙ append_assoc (committed d) before doubtful,
  )
  Committed-after P d d1 before (d', none) b same (doubtful, q, values, p, law) = (
    before ++ doubtful,
    Doubtful-append P before doubtful b q,
    values,
    p,
    law
        ∙ ap (λ l. l ++ values)
            (ap (λ l. l ++ doubtful) same ∙ append_assoc (committed d) before doubtful),
  )

  Committed-move :
      (P : List V → Type 0) (d d1 : D) (r : D × Option (Raised K))
      → committed d1 ≡ committed d
      → Committed P d1 r
      → Committed P d r
  Committed-move P d d1 r same h =
      Committed-after P d d1 [] r nothing (same ∙ sym (append-nil (committed d))) h

  pub unchanged : (P : List V → Type 0) (d d' : D) → committed d' ≡ committed d → Tried P d d'
  unchanged P d d' same = ([], nothing, same ∙ sym (append-nil (committed d)))

  pub committed_once :
      (P : List V → Type 0) (d d' : D) (values : List V)
      → P values
      → committed d' ≡ committed d ++ values
      → Done P d d'
  committed_once P d d' values p law =
      ([], nothing, values, p, law ∙ ap (λ l. l ++ values) (sym (append-nil (committed d))))

  roll_back-Committed :
      (P : List V → Type 0) (d : D) (r : D × Option (Raised K))
      → Committed P d r
      → Committed P d (left db (roll_back db r))
  unfolding left roll_back
  roll_back-Committed P d (d', some error) (doubtful, q, law) =
      (doubtful, q, laws.leave_keeps (db.rollback d').0 ∙ laws.rollback_keeps d' ∙ law)
  roll_back-Committed P d (d', none) (doubtful, q, values, p, law) =
      (doubtful, q, values, p, laws.leave_keeps d' ∙ law)

  -- A commit, where `values` are pending.
  committing :
      (P : List V → Type 0) (d : D) (values : List V) (r : D × Option (Raised K))
      → db.commit d ≡ r
      → P values
      → ((error : Raised K)
          → r.1 ≡ some error
          → (committed r.0 ≡ committed d) ⊎ (committed r.0 ≡ committed d ++ values))
      → (r.1 ≡ none → committed r.0 ≡ committed d ++ values)
      → Committed P d r
  committing P d values (d', some error) call p doubt added = elim (doubt error refl) [
    | inl kept ↦ unchanged P d d' kept
    | inr lost ↦ (
      values ++ [],
      answer_lost d error p (ap (λ (x : D × Option (Raised K)). x.1) call) nothing,
      lost ∙ ap (λ l. committed d ++ l) (sym (append-nil values)),
    )
  ]
  committing P d values (d', none) call p doubt added = committed_once P d d' values p (added refl)

  commit-Committed :
      (P : List V → Type 0) (d : D) (r : D × Option (Raised K))
      → pending d ≡ []
      → Wrote db laws P d r
      → Committed P d (and_then db r db.commit)
  unfolding and_then
  commit-Committed P d (d', some error) fresh h = unchanged P d d' h
  commit-Committed P d (d', none) fresh (same, values, p, added) =
      let filled : pending d' ≡ values = added ∙ ap (λ l. l ++ values) fresh in
      Committed-move P d d' (db.commit d') same (
        committing P d' values (db.commit d') refl p
          (λ error h.
            subst
              (λ l.
                (committed (db.commit d').0 ≡ committed d')
                ⊎ (committed (db.commit d').0 ≡ committed d' ++ l))
              filled (laws.commit_doubtful d' error h))
          (λ quiet. laws.commit_adds d' quiet ∙ ap (λ l. committed d' ++ l) filled))

  entered :
      (P : List V → Type 0) (body : D → D × Option (Raised K)) (d : D) (r : D × Option (Raised K))
      → ((d1 : D) → Wrote db laws P d1 (body d1))
      → committed r.0 ≡ committed d
      → (r.1 ≡ none → pending r.0 ≡ [])
      → Committed P d
          (and_then db r (λ d1. left db (roll_back db (and_then db (body d1) db.commit))))
  unfolding and_then
  entered P body d (d1, some error) h same fresh = unchanged P d d1 same
  entered P body d (d1, none) h same fresh =
      Committed-move P d d1 (left db (roll_back db (and_then db (body d1) db.commit))) same (
        roll_back-Committed P d1 (and_then db (body d1) db.commit)
          (commit-Committed P d1 (body d1) (fresh refl) (h d1)))

  pub in_transaction-Committed :
      (P : List V → Type 0) (body : D → D × Option (Raised K)) (d : D)
      → ((d1 : D) → Wrote db laws P d1 (body d1))
      → Committed P d (in_transaction db body d)
  unfolding in_transaction
  in_transaction-Committed P body d h =
      entered P body d (db.acquire d) h (laws.acquire_keeps d) (laws.acquire_begins d)

  Runs-Committed :
      (P : List V → Type 0) (action : D → D × Option (Raised K)) (d : D) (r : D × Option (Raised K))
      → Runs action d r
      → ((d1 : D) → Committed P d1 (action d1))
      → Committed P d r
  Runs-Committed P action d r (last _) h = h d
  Runs-Committed P action d r (again {d1} {error} first rest) h =
      let (doubtful, q, law) : Committed P d (d1, some error) = subst (Committed P d) first (h d) in
      Committed-after P d d1 doubtful r q law (Runs-Committed P action d1 r rest h)

  pub with_retries-Committed :
      (mode : InsertMode) (P : List V → Type 0) (action : D → D × Option (Raised K)) (d : D)
      → ((d1 : D) → Committed P d1 (action d1))
      → let r = with_retries db mode action d in Committed P d (r.0, r.1)
  unfolding with_retries
  with_retries-Committed insert P action d h =
      Runs-Committed P action d _ (laws.retry_runs action d) h
  with_retries-Committed copy P action d h = h d
  with_retries-Committed copy_merge P action d h =
      Runs-Committed P action d _ (laws.retry_runs action d) h
