-- ===== src/Postgres/Preparation/Fits.antt =====
-- The rows of an aligned batch fit its columns, so that their parameters can be listed.
use agora_etl_plugins.Common.{
  ℕ, suc, ◌+◌, ◌*◌, ◌≡◌, refl, sym, ap, ◌∙◌, subst, Bool, true, false, not, ◌&&◌, ◌||◌, Option,
  none, some, List, [], ◌∷◌, ◌++◌, length, Result, ok, raise, map, Eq, arith, Bool-cases, inl, inr,
  All, list_eq, if-cases,
}
use agora_etl_plugins.Common.Lists.{filter, each, filter-All, length-append}
use agora_etl_plugins.Common.Dict.{Dict, get, put, put_all, get-put}
use agora_etl_plugins.Common.Sets.{has, is_nil, set_of, has-set_of, same_set, is_subset-intro}
use agora_etl_plugins.Postgres.Errors.{WriteError, Drift}
use agora_etl_plugins.Postgres.Preparation.{
  TargetColumn, WriteBatch, keys, is_some, is_writable, writable_part, checked, ordered_columns,
  lacks, is_missing, observe_unknown, normalize_row_to_target, batch_of, extend_params, row_values,
  flatten_rows, align_rows_to_target,
}
use agora_etl_plugins.Postgres.Preparation.Grouped.{
  enumerate, and_rows, with_row, normalize_rows, batch_at, grouped_rows, stands_in,
  align_rows_to_target-eq,
}

and_true : {a b : Bool} → a ≡ true → b ≡ true → (a && b) ≡ true
and_true h g = rw (h, g)

and_left : (a b : Bool) → (a && b) ≡ true → a ≡ true
and_left a b h = ground arith

is_some-get : {A : Type 0} (o : Option A) → is_some o ≡ true → (a : A) × (o ≡ some a)
is_some-get none h = cc
is_some-get (some a) h = (a, refl)

or_false : (b : Bool) → (b || false) ≡ true → b ≡ true
or_false true h = refl
or_false false h = h

module _ {K : Type 0} ⦃e : Eq K⦄ where
  has-keys : {V : Type 0} (k : K) (row : Dict K V) → has k (keys row) ≡ is_some (get k row)
  unfolding has get
  has-keys k [] = refl
  has-keys k ((j, v) ∷ row) = ground (arith, has-keys k row)

  has-filter : (p : K → Bool) (k : K) (ks : List K) → has k (filter p ks) ≡ (p k && has k ks)
  unfolding has filter
  has-filter p k [] = ground arith
  has-filter p k (j ∷ ks) = ground (arith, has-filter p k ks, e.beq_iff j k)

  -- The names that may be written.
  abbrev writable_names : List (TargetColumn K) → List K
  writable_names target_columns = map (λ c. c.name) (filter (λ c. c.writable) target_columns)

  abbrev may_write : Option (TargetColumn K) → Bool
  may_write none = false
  may_write (some column) = column.writable

  put_all-writable :
      (k : K) (cs : List (TargetColumn K)) (d : Dict K (TargetColumn K))
      → may_write (get k (put_all (map (λ c. (c.name, c)) cs) d)) ≡ true
      → (has k (writable_names cs) || may_write (get k d)) ≡ true
  unfolding put_all has filter
  put_all-writable k [] d h = h
  put_all-writable k (c ∷ cs) d h =
      ground (arith, put_all-writable k cs (put c.name c d) h, get-put c.name k c d)

  -- Every column of the row may be written.
  abbrev pub AreWritable : {V : Type 0} → List (TargetColumn K) → Dict K V → Type 0
  AreWritable target_columns row = All (λ item. is_writable target_columns item.0 ≡ true) row

  writable_part-AreWritable :
      {V : Type 0} (target_columns : List (TargetColumn K)) (row : Dict K V)
      → AreWritable target_columns (writable_part target_columns row)
  unfolding writable_part
  writable_part-AreWritable target_columns row = filter-All _ row

  is_writable-has :
      (target_columns : List (TargetColumn K)) (k : K)
      → is_writable target_columns k ≡ true
      → has k (writable_names target_columns) ≡ true
  unfolding is_writable get
  is_writable-has target_columns k h =
      or_false (has k (writable_names target_columns)) (put_all-writable k target_columns [] h)

  AreWritable-get :
      {V : Type 0} (target_columns : List (TargetColumn K)) (k : K) (row : Dict K V)
      → AreWritable target_columns row
      → has k (keys row) ≡ true
      → has k (writable_names target_columns) ≡ true
  unfolding has
  AreWritable-get target_columns k [] w h = cc
  AreWritable-get target_columns k ((j, v) ∷ row) w h = elim (Bool-cases (e.beq j k)) [
    | inl same ↦
        is_writable-has target_columns k
          (subst (λ i. is_writable target_columns i ≡ true) ((e.beq_iff j k).0 same) w.0)
    | inr other ↦ AreWritable-get target_columns k row w.1 (ground (arith, other, h))
  ]

module _ {K V : Type 0} ⦃e : Eq K⦄ (target_columns : List (TargetColumn K)) where
  -- A row that was not refused is the one that was checked.
  abbrev Keeps : Dict K V → Result (WriteError K) (Dict K V) → Type 0
  Keeps normalized (raise error) = Unit
  Keeps normalized (ok row) = normalized ≡ row

  checked-Keeps :
      (i : ℕ) (input missing_keys missing_required : List K) (normalized : Dict K V) (d : Drift)
      → Keeps normalized (checked i input missing_keys missing_required normalized d).1
  unfolding checked
  checked-Keeps i input missing_keys missing_required normalized d =
      let P = λ (t : Drift × Result (WriteError K) (Dict K V)). Keeps normalized t.1 in
      if-cases P (not (is_nil missing_keys)) (λ h. tt)
        (λ h.
          if-cases P (not (is_nil missing_required)) (λ g. tt)
            (λ g. if-cases P (is_nil normalized) (λ f. tt) (λ f. refl)))

  normalize_row_to_target-AreWritable :
      (conflict_keys : List K) (i : ℕ) (row row' : Dict K V) (d d' : Drift)
      → normalize_row_to_target conflict_keys target_columns i row d ≡ (d', ok row')
      → AreWritable target_columns row'
  unfolding normalize_row_to_target
  normalize_row_to_target-AreWritable conflict_keys i row row' d d' h =
      let normalized = writable_part target_columns row in
      let kept =
        checked-Keeps i (keys row) (filter (lacks normalized) conflict_keys)
          (map (λ c. c.name) (filter (is_missing normalized) target_columns)) normalized
          (observe_unknown (filter (λ key. not (is_writable target_columns key)) (keys row)) d) in
      subst (AreWritable target_columns) (subst (λ r. Keeps normalized r.1) h kept)
        (writable_part-AreWritable target_columns row)

  abbrev AllWritable : Drift × Result (WriteError K) (List (Dict K V)) → Type 0
  AllWritable (d, raise error) = Unit
  AllWritable (d, ok rows) = All (AreWritable target_columns) rows

  with_row-AllWritable :
      (row : Dict K V) (rest : Drift × Result (WriteError K) (List (Dict K V)))
      → AreWritable target_columns row
      → AllWritable rest
      → AllWritable (with_row row rest)
  with_row-AllWritable row (d, raise error) w ws = tt
  with_row-AllWritable row (d, ok rows) w ws = (w, ws)

  and_rows-AllWritable :
      (r : Drift × Result (WriteError K) (Dict K V))
      → (rest : Drift → Drift × Result (WriteError K) (List (Dict K V)))
      → ((d : Drift) (row : Dict K V) → r ≡ (d, ok row) → AreWritable target_columns row)
      → ((d : Drift) → AllWritable (rest d))
      → AllWritable (and_rows r rest)
  and_rows-AllWritable (d, raise error) rest h hs = tt
  and_rows-AllWritable (d, ok row) rest h hs =
      with_row-AllWritable row (rest d) (h d row refl) (hs d)

  normalize_rows-AllWritable :
      (conflict_keys : List K) (i : ℕ) (rows : List (Dict K V)) (d : Drift)
      → AllWritable (normalize_rows conflict_keys target_columns i rows d)
  unfolding normalize_rows
  normalize_rows-AllWritable conflict_keys i [] d = tt
  normalize_rows-AllWritable conflict_keys i (row ∷ rows) d =
      and_rows-AllWritable (normalize_row_to_target conflict_keys target_columns i row d) _
        (λ d' row' h. normalize_row_to_target-AreWritable conflict_keys i row row' d d' h)
        (normalize_rows-AllWritable conflict_keys (i + 1) rows)

  -- The columns of a normalised row are just those that its batch names.
  fits :
      (row : Dict K V)
      → AreWritable target_columns row
      → same_set (set_of (keys row)) (set_of (ordered_columns target_columns row)) ≡ true
  unfolding same_set ordered_columns
  fits row w =
      let columns = ordered_columns target_columns row in
      let at : (k : K)
          → has k columns ≡ (is_some (get k row) && has k (writable_names target_columns)) =
        λ k. has-filter (λ j. is_some (get j row)) k (writable_names target_columns) in
      rw (
        is_subset-intro (set_of (keys row)) (set_of columns) (λ k h.
            let h' : has k (keys row) ≡ true = sym (has-set_of k (keys row)) ∙ h in
            has-set_of k columns
            ∙ at k
            ∙ and_true (sym (has-keys k row) ∙ h') (AreWritable-get target_columns k row w h')),
        is_subset-intro (set_of columns) (set_of (keys row)) (λ k h.
            has-set_of k (keys row)
            ∙ has-keys k row
            ∙ and_left (is_some (get k row)) (has k (writable_names target_columns))
                (sym (at k) ∙ sym (has-set_of k columns) ∙ h)),
      )

  each-some :
      (ks : List K) (row : Dict K V)
      → All (λ k. is_some (get k row) ≡ true) ks
      → (values : List V) × (row_values ks row ≡ some values) × (length values ≡ length ks)
  unfolding row_values each
  each-some [] row h = ([], refl, refl)
  each-some (k ∷ ks) row h =
      let first = is_some-get (get k row) h.0 in
      let rest = each-some ks row h.1 in (first.0 ∷ rest.0, rw (first.1, rest.1), ap suc rest.2)

  abbrev pub Fits : List K → Dict K V → Type 0
  Fits columns row = AreWritable target_columns row × (ordered_columns target_columns row ≡ columns)

  flatten_rows-params :
      (columns : List K) (rows : List (Dict K V))
      → All (Fits columns) rows
      → (params : List V) × (flatten_rows rows columns ≡ ok params)
        × (length params ≡ length rows * length columns)
  unfolding flatten_rows extend_params ordered_columns
  flatten_rows-params columns [] h = ([], refl, omega arith)
  flatten_rows-params columns (row ∷ rows) h =
      let rest = flatten_rows-params columns rows h.1 in
      let values = each-some columns row (
        subst (λ ks. All (λ k. is_some (get k row) ≡ true) ks) h.0.1
          (filter-All (λ k. is_some (get k row)) (writable_names target_columns))) in
      let same : same_set (set_of (keys row)) (set_of columns) ≡ true =
        subst (λ ks. same_set (set_of (keys row)) (set_of ks) ≡ true) h.0.1 (fits row h.0.0) in
      (
        values.0 ++ rest.0,
        rw (same, values.1, rest.1),
        omega (arith, length-append values.0 rest.0, values.2, rest.2),
      )

  batch_at-Fits :
      (columns : List K) (i : ℕ) (rows : List (Dict K V))
      → All (AreWritable target_columns) rows
      → All
          (Fits columns)
          (map (λ item. item.1) (filter (stands_in target_columns columns) (enumerate i rows)))
  unfolding filter
  batch_at-Fits columns i [] w = tt
  batch_at-Fits columns i (row ∷ rows) w =
      elim (Bool-cases (list_eq.beq (ordered_columns target_columns row) columns)) [
        | inl same ↦
            rw same ((w.0, (list_eq.beq_iff _ _).0 same), batch_at-Fits columns (i + 1) rows w.1)
        | inr other ↦ rw other (batch_at-Fits columns (i + 1) rows w.1)
      ]

  -- The parameters of a batch: a value for each row and column.
  abbrev pub HasParams : WriteBatch K V → Type 0
  HasParams b =
      (params : List V) × (flatten_rows b.rows b.columns ≡ ok params)
      × (length params ≡ length b.rows * length b.columns)

  batches-HasParams :
      (rows : List (Dict K V))
      → All (AreWritable target_columns) rows
      → (orders : List (List K)) → All HasParams (map (batch_at target_columns rows) orders)
  unfolding batch_of
  batches-HasParams rows w [] = tt
  batches-HasParams rows w (columns ∷ orders) = (
    flatten_rows-params columns _ (batch_at-Fits columns 0 rows w),
    batches-HasParams rows w orders,
  )

  abbrev pub AllParams : Result (WriteError K) (List (WriteBatch K V)) → Type 0
  AllParams (raise error) = Unit
  AllParams (ok batches) = All HasParams batches

  grouped_rows-AllParams :
      (r : Drift × Result (WriteError K) (List (Dict K V)))
      → AllWritable r
      → AllParams (grouped_rows target_columns r).1
  grouped_rows-AllParams (d, raise error) w = tt
  grouped_rows-AllParams (d, ok rows) w = batches-HasParams rows w _

  -- Where no row is refused, the parameters of each aligned batch can be listed, a value for each
  -- row and column: no row of it lacks a column, or has another.
  pub align_rows_to_target-HasParams :
      (conflict_keys : List K) (rows : List (Dict K V)) (d d' : Drift)
      → (batches : List (WriteBatch K V))
      → align_rows_to_target conflict_keys target_columns rows d ≡ (d', ok batches)
      → All HasParams batches
  align_rows_to_target-HasParams conflict_keys rows d d' batches h =
      subst (λ r. AllParams r.1)
        (sym (align_rows_to_target-eq target_columns conflict_keys rows d) ∙ h)
        (grouped_rows-AllParams (normalize_rows conflict_keys target_columns 0 rows d)
          (normalize_rows-AllWritable conflict_keys 0 rows d))
