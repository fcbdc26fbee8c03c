-- ===== src/Postgres/Preparation/Grouped.antt =====
-- The batches of the aligned rows, against a description of them by columns.
use mathlib.Core.Path.{fun_ext}
use mathlib.Core.List.{append-nil, append_assoc}
use agora_etl_plugins.Common.{
  ℕ, ◌+◌, ◌≡◌, refl, sym, ap, ◌∙◌, Bool, true, false, ◌||◌, Option, none, some, List, [], ◌∷◌, ◌++◌,
  if◌then◌else◌, Result, ok, raise, map, Eq, arith, list_eq, Bool-cases, inl, inr, subst,
}
use agora_etl_plugins.Common.Lists.{filter}
use agora_etl_plugins.Common.Dict.{Dict, get, put, get-put}
use agora_etl_plugins.Common.Sets.{has, has-append}
use agora_etl_plugins.Postgres.Errors.{WriteError, Drift}
use agora_etl_plugins.Postgres.Preparation.{
  TargetColumn, WriteBatch, Groups, normalize_row_to_target, ordered_columns, add_with,
  add_to_group, or_empty, batch_of, batches_of, add_row, align_from, batches_result,
  align_rows_to_target, is_some,
}

abbrev pub enumerate : {A : Type 0} → ℕ → List A → List (ℕ × A)
enumerate i [] = []
enumerate i (x ∷ xs) = (i, x) ∷ enumerate (i + 1) xs

module _ {K : Type 0} ⦃e : Eq K⦄ where
  -- Each list of columns once, in the order in which it comes first.
  unfoldable pub firsts : List (List K) → List (List K) → List (List K)
  firsts seen [] = seen
  firsts seen (c ∷ cs) = firsts (if has c seen then seen else seen ++ (c ∷ [])) cs

or_absorbs : (a b : Bool) → (b ≡ true → a ≡ true) → (a || b) ≡ a
or_absorbs true b h = refl
or_absorbs false true h = sym (h refl)
or_absorbs false false h = refl

if-append :
    {A : Type 0} (b : Bool) (x : A) (xs : List A)
    → (if b then x ∷ [] else []) ++ xs ≡ (if b then x ∷ xs else xs)
if-append true x xs = refl
if-append false x xs = refl

module _ {K V : Type 0} ⦃e : Eq K⦄ where
  abbrev pub with_row :
      Dict K V
      → Drift × Result (WriteError K) (List (Dict K V))
      → Drift × Result (WriteError K) (List (Dict K V))
  with_row row (d, raise error) = (d, raise error)
  with_row row (d, ok rows) = (d, ok (row ∷ rows))

  abbrev pub and_rows :
      Drift × Result (WriteError K) (Dict K V)
      → (Drift → Drift × Result (WriteError K) (List (Dict K V)))
      → Drift × Result (WriteError K) (List (Dict K V))
  and_rows (d, raise error) rest = (d, raise error)
  and_rows (d, ok row) rest = with_row row (rest d)

  -- Each row on its own, from the first to the one that is refused.
  unfoldable pub normalize_rows :
      List K
      → List (TargetColumn K)
      → ℕ
      → List (Dict K V)
      → Drift
      → Drift × Result (WriteError K) (List (Dict K V))
  normalize_rows conflict_keys target_columns index [] d = (d, ok [])
  normalize_rows conflict_keys target_columns index (row ∷ rows) d =
      and_rows (normalize_row_to_target conflict_keys target_columns index row d)
        (normalize_rows conflict_keys target_columns (index + 1) rows)

  module _ (target_columns : List (TargetColumn K)) where
    abbrev pub stands_in : List K → ℕ × Dict K V → Bool
    stands_in columns item = list_eq.beq (ordered_columns target_columns item.1) columns

    -- The batch of some columns: the rows that have just these, with their places.
    abbrev pub batch_at : List (Dict K V) → List K → WriteBatch K V
    batch_at rows columns = batch_of columns (filter (stands_in columns) (enumerate 0 rows))

    abbrev pub grouped_rows :
        Drift × Result (WriteError K) (List (Dict K V))
        → Drift × Result (WriteError K) (List (WriteBatch K V))
    grouped_rows (d, raise error) = (d, raise error)
    grouped_rows (d, ok rows) =
        (d, ok (map (batch_at rows) (firsts [] (map (ordered_columns target_columns) rows))))

    -- All rows, put into their groups one after the other.
    group_all : ℕ → List (Dict K V) → Groups K V → Groups K V
    group_all i [] g = g
    group_all i (row ∷ rows) g =
        group_all (i + 1) rows (add_to_group (ordered_columns target_columns row) (i, row) g)

    abbrev grouping :
        ℕ
        → Groups K V
        → Drift × Result (WriteError K) (List (Dict K V))
        → Drift × Result (WriteError K) (Groups K V)
    grouping i g (d, raise error) = (d, raise error)
    grouping i g (d, ok rows) = (d, ok (group_all i rows g))

    grouping-with_row :
        (i : ℕ) (g : Groups K V) (row : Dict K V)
        → (rest : Drift × Result (WriteError K) (List (Dict K V)))
        → grouping i g (with_row row rest)
          ≡ grouping (i + 1) (add_to_group (ordered_columns target_columns row) (i, row) g) rest
    unfolding group_all
    grouping-with_row i g row (d, raise error) = refl
    grouping-with_row i g row (d, ok rows) = refl

    add_row-eq :
        (i : ℕ) (g : Groups K V) (r : Drift × Result (WriteError K) (Dict K V))
        → (next : Groups K V → Drift → Drift × Result (WriteError K) (Groups K V))
        → (rest : Drift → Drift × Result (WriteError K) (List (Dict K V)))
        → ((g' : Groups K V) (d : Drift) → next g' d ≡ grouping (i + 1) g' (rest d))
        → add_row target_columns i g r next ≡ grouping i g (and_rows r rest)
    unfolding add_row
    add_row-eq i g (d, raise error) next rest h = refl
    add_row-eq i g (d, ok row) next rest h = h _ d ∙ sym (grouping-with_row i g row (rest d))

    align_from-eq :
        (conflict_keys : List K) (i : ℕ) (rows : List (Dict K V)) (g : Groups K V) (d : Drift)
        → align_from conflict_keys target_columns i rows g d
          ≡ grouping i g (normalize_rows conflict_keys target_columns i rows d)
    unfolding align_from normalize_rows group_all
    align_from-eq conflict_keys i [] g d = refl
    align_from-eq conflict_keys i (row ∷ rows) g d =
        add_row-eq i g (normalize_row_to_target conflict_keys target_columns i row d) _ _
          (align_from-eq conflict_keys (i + 1) rows)

    add_with-group :
        (c columns : List K) (item : ℕ × Dict K V) (g : Groups K V)
        → (o : Option (List (ℕ × Dict K V))) → get columns g.0 ≡ o
        → or_empty (get c (add_with columns item g o).0)
          ≡ or_empty (get c g.0) ++ (if list_eq.beq columns c then item ∷ [] else [])
    unfolding add_with
    add_with-group c columns item (grouped, order) none h =
        elim (Bool-cases (list_eq.beq columns c)) [
          | inl same ↦
              let q : get c grouped ≡ none =
                ap (λ k. get k grouped) (sym ((list_eq.beq_iff columns c).0 same)) ∙ h in
              rw (get-put, same, q)
          | inr other ↦ rw (get-put, other, append-nil)
        ]
    add_with-group c columns item (grouped, order) (some group) h =
        elim (Bool-cases (list_eq.beq columns c)) [
          | inl same ↦
              let q : get c grouped ≡ some group =
                ap (λ k. get k grouped) (sym ((list_eq.beq_iff columns c).0 same)) ∙ h in
              rw (get-put, same, q)
          | inr other ↦ rw (get-put, other, append-nil)
        ]

    group_all-group :
        (c : List K) (i : ℕ) (rows : List (Dict K V)) (g : Groups K V)
        → or_empty (get c (group_all i rows g).0)
          ≡ or_empty (get c g.0) ++ filter (stands_in c) (enumerate i rows)
    unfolding group_all filter add_to_group
    group_all-group c i [] g = rw append-nil
    group_all-group c i (row ∷ rows) g =
        let columns = ordered_columns target_columns row in
        let step = add_with-group c columns (i, row) g (get columns g.0) refl in
        let ih = group_all-group c (i + 1) rows (add_to_group columns (i, row) g) in
        let rest = filter (stands_in c) (enumerate (i + 1) rows) in
        ih
        ∙ ap (λ l. l ++ rest) step
        ∙ append_assoc (or_empty (get c g.0)) (if list_eq.beq columns c then (i, row) ∷ [] else [])
            rest
        ∙ ap (λ l. or_empty (get c g.0) ++ l) (if-append (list_eq.beq columns c) (i, row) rest)

    is_some-put :
        (c columns : List K) (group : List (ℕ × Dict K V)) (d : Dict (List K) (List (ℕ × Dict K V)))
        → is_some (get c (put columns group d)) ≡ (is_some (get c d) || list_eq.beq columns c)
    is_some-put c columns group d = elim (Bool-cases (list_eq.beq columns c)) [
      | inl same ↦ rw (get-put, same) (ground arith)
      | inr other ↦ rw (get-put, other) (ground arith)
    ]

    -- The dictionary has just the columns of the order.
    abbrev InStep : Groups K V → Type 0
    InStep g = (c : List K) → is_some (get c g.0) ≡ has c g.1

    add_with-InStep :
        (columns : List K) (item : ℕ × Dict K V) (g : Groups K V) (o : Option (List (ℕ × Dict K V)))
        → get columns g.0 ≡ o
        → InStep g
        → InStep (add_with columns item g o)
          × ((add_with columns item g o).1
              ≡ (if has columns g.1 then g.1 else g.1 ++ (columns ∷ [])))
    unfolding add_with has
    add_with-InStep columns item (grouped, order) none h inv =
        let absent : has columns order ≡ false = sym (inv columns) ∙ ap is_some h in
        (
          λ c.
              is_some-put c columns (item ∷ []) grouped
              ∙ rw (inv c, has-append, has) (ground arith),
          rw absent,
        )
    add_with-InStep columns item (grouped, order) (some group) h inv =
        let present : has columns order ≡ true = sym (inv columns) ∙ ap is_some h in
        (
          λ c.
              is_some-put c columns (group ++ (item ∷ [])) grouped
              ∙ ap (λ b. b || list_eq.beq columns c) (inv c)
              ∙ or_absorbs (has c order) (list_eq.beq columns c) (λ same.
                subst (λ k. has k order ≡ true) ((list_eq.beq_iff columns c).0 same) present),
          rw present,
        )

    group_all-order :
        (i : ℕ) (rows : List (Dict K V)) (g : Groups K V)
        → InStep g
        → (group_all i rows g).1 ≡ firsts g.1 (map (ordered_columns target_columns) rows)
    unfolding group_all firsts add_to_group
    group_all-order i [] g inv = refl
    group_all-order i (row ∷ rows) g inv =
        let columns = ordered_columns target_columns row in
        let step = add_with-InStep columns (i, row) g (get columns g.0) refl inv in
        group_all-order (i + 1) rows (add_to_group columns (i, row) g) step.0
        ∙ ap (λ l. firsts l (map (ordered_columns target_columns) rows)) step.1

    batches_of-group_all :
        (rows : List (Dict K V))
        → batches_of (group_all 0 rows ([], []))
          ≡ map (batch_at rows) (firsts [] (map (ordered_columns target_columns) rows))
    unfolding batches_of has get
    batches_of-group_all rows =
        let g = group_all 0 rows ([], []) in
        rw (group_all-order 0 rows ([], []) (λ c. refl)) (
          ap (λ f. map f (firsts [] (map (ordered_columns target_columns) rows)))
            (fun_ext (λ c. ap (batch_of c) (group_all-group c 0 rows ([], [])))))

    batches_result-grouping :
        (r : Drift × Result (WriteError K) (List (Dict K V)))
        → batches_result (grouping 0 ([], []) r) ≡ grouped_rows r
    unfolding batches_result
    batches_result-grouping (d, raise error) = refl
    batches_result-grouping (d, ok rows) = ap (λ bs. (d, ok bs)) (batches_of-group_all rows)

    -- The aligned batches are those of the rows, each normalised on its own: one for each list of
    -- columns that occurs, in the order in which they occur first, with the rows that have just
    -- these columns, in their order and with their places in the batch. A row that is refused ends
    -- both in the same way.
    pub align_rows_to_target-eq :
        (conflict_keys : List K) (rows : List (Dict K V)) (d : Drift)
        → align_rows_to_target conflict_keys target_columns rows d
          ≡ grouped_rows (normalize_rows conflict_keys target_columns 0 rows d)
    unfolding align_rows_to_target
    align_rows_to_target-eq conflict_keys rows d =
        ap batches_result (align_from-eq conflict_keys 0 rows ([], []) d)
        ∙ batches_result-grouping (normalize_rows conflict_keys target_columns 0 rows d)
