-- ===== src/Postgres/Preparation/Statements.antt =====
-- How the rows are cut into statements.
use native.Mathlib.Nat.{div-mul-le_self}
use agora_etl_plugins.Common.{
  ℕ, zero, suc, ◌*◌, ◌/◌, ◌≤◌, ◌≡◌, refl, sym, max, subst, false, leb, Option, none, some, List, [],
  ◌∷◌, length, arith, Bool-cases, inl, inr, All, All-map, take, drop, nat_beq,
}
use agora_etl_plugins.Common.Lists.{flatten, take-append-drop, length-take-le, length-drop}
use agora_etl_plugins.Common.Dict.{Dict}
use agora_etl_plugins.Postgres.Preparation.{
  Limits, limited, statement_row_limit, chunks_from, iter_sql_chunks,
}

-- A chunk of rows that one statement takes: it is not empty, and it is within both limits.
abbrev pub WithinRows : Option ℕ → ℕ → Type 0
WithinRows none n = Unit {0}
WithinRows (some m) n = n ≤ max 1 m

abbrev pub IsWithin : {A : Type 0} → Limits → ℕ → List A → Type 0
IsWithin limits column_count chunk =
    (1 ≤ length chunk)
    × (length chunk * column_count ≤ max limits.max_parameters_per_statement column_count)
    × WithinRows limits.max_rows_per_statement (length chunk)

length-take-pos : {A : Type 0} (n : ℕ) (x : A) (xs : List A) → 1 ≤ n → 1 ≤ length (take n (x ∷ xs))
length-take-pos zero x xs h = absurd (omega arith)
length-take-pos (suc n) x xs h = omega arith

chunks_from_lem :
    {A : Type 0} (fuel size : ℕ) (rows : List A)
    → length rows ≤ fuel
    → 1 ≤ size
    → (flatten (chunks_from fuel size rows) ≡ rows)
      × All (λ chunk. (1 ≤ length chunk) × (length chunk ≤ size)) (chunks_from fuel size rows)
unfolding chunks_from flatten
chunks_from_lem zero size [] h pos = (refl, tt)
chunks_from_lem zero size (row ∷ rows) h pos = absurd (omega arith)
chunks_from_lem (suc n) size [] h pos = (refl, tt)
chunks_from_lem (suc n) size (row ∷ rows) h pos =
    let rest =
      chunks_from_lem n size (drop size (row ∷ rows)) (omega (arith, length-drop size (row ∷ rows)))
        pos in
    (
      rw rest.0 (take-append-drop size (row ∷ rows)),
      ((length-take-pos size row rows pos, length-take-le size (row ∷ rows)), rest.1),
    )

mul_mono : (n q c : ℕ) → n ≤ q → n * c ≤ q * c
mul_mono n q c h = grind arith

suc_test : (c : ℕ) → nat_beq (suc c) 0 ≡ false
suc_test c = ground arith

div_bound : (m c n : ℕ) → 1 ≤ c → n ≤ max 1 (m / c) → n * c ≤ max m c
div_bound m c n h k = elim (Bool-cases (leb 1 (m / c))) [
  | inl some_rows ↦
      ground (arith, mul_mono n (m / c) c (ground (arith, some_rows, k)), div-mul-le_self m c)
  | inr no_rows ↦ ground (arith, mul_mono n 1 c (ground (arith, no_rows, k)))
]

limit-suc :
    (limits : Limits) (c : ℕ)
    → statement_row_limit limits (suc c)
      ≡ limited limits.max_rows_per_statement (max 1 (limits.max_parameters_per_statement / suc c))
unfolding statement_row_limit
limit-suc limits c = rw (suc_test c)

limited_lem : (o : Option ℕ) (p n : ℕ) → 1 ≤ p → n ≤ limited o p → (n ≤ p) × WithinRows o n
limited_lem none p n pos h = (h, tt)
limited_lem (some m) p n pos h = ground arith

one_within : (o : Option ℕ) (n : ℕ) → n ≤ 1 → WithinRows o n
one_within none n h = tt
one_within (some m) n h = omega arith

statement_row_limit_lem :
    (limits : Limits) (column_count n : ℕ)
    → n ≤ statement_row_limit limits column_count
    → (n * column_count ≤ max limits.max_parameters_per_statement column_count)
      × WithinRows limits.max_rows_per_statement n
unfolding statement_row_limit
statement_row_limit_lem limits zero n h =
    (omega arith, one_within limits.max_rows_per_statement n h)
statement_row_limit_lem limits (suc c) n h =
    let b =
      limited_lem limits.max_rows_per_statement
        (max 1 (limits.max_parameters_per_statement / suc c)) n (omega arith)
        (subst (λ l. n ≤ l) (limit-suc limits c) h) in
    (div_bound limits.max_parameters_per_statement (suc c) n (omega arith) b.0, b.1)

limited-pos : (o : Option ℕ) (p : ℕ) → 1 ≤ p → 1 ≤ limited o p
limited-pos none p h = h
limited-pos (some m) p h = omega arith

statement_row_limit-pos : (limits : Limits) (c : ℕ) → 1 ≤ statement_row_limit limits c
unfolding statement_row_limit
statement_row_limit-pos limits zero = omega arith
statement_row_limit-pos limits (suc c) =
    subst (λ l. 1 ≤ l) (sym (limit-suc limits c))
      (limited-pos limits.max_rows_per_statement
        (max 1 (limits.max_parameters_per_statement / suc c)) (omega arith))

-- Whatever the limits are, the chunks are the rows, one after the other; none is empty, none has more
-- rows than are allowed (but one row is), and none has more parameters than are allowed (but the
-- columns of one row are).
pub iter_sql_chunks-IsWithin :
    {K V : Type 0} (limits : Limits) (rows : List (Dict K V)) (columns : List K)
    → (flatten (iter_sql_chunks limits rows columns) ≡ rows)
      × All (IsWithin limits (length columns)) (iter_sql_chunks limits rows columns)
unfolding iter_sql_chunks
iter_sql_chunks-IsWithin limits rows columns =
    let size = statement_row_limit limits (length columns) in
    let cut =
      chunks_from_lem (length rows) size rows (omega arith)
        (statement_row_limit-pos limits (length columns)) in
    (
      cut.0,
      All-map (λ chunk. (1 ≤ length chunk) × (length chunk ≤ size))
          (IsWithin limits (length columns))
          (λ chunk h.
            let b = statement_row_limit_lem limits (length columns) (length chunk) h.1 in
            (h.0, b.0, b.1))
          (chunks_from (length rows) size rows) cut.1,
    )
