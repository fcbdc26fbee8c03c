-- ===== src/BigQuery/StorageWrite/Chunks.antt =====
-- The chunks of the serialised rows.
use mathlib.Core.List.{append_assoc, append-nil}
use agora_etl_plugins.Common.{
  ℕ, ◌+◌, ◌≡◌, refl, sym, ap, ◌∙◌, false, not, ◌&&◌, List, [], ◌∷◌, ◌++◌, ltb, ◌≤◌, Result, ok,
  raise, All, All-append, flatten-append, arith, ltb→lt, Bool-cases, inl, inr,
}
use agora_etl_plugins.Common.Lists.{flatten}
use agora_etl_plugins.Common.Sets.{is_nil}
use agora_etl_plugins.BigQuery.StorageWrite.{
  Failure, oversized_row, add_payload, close_batch, chunk_from, chunk_serialized_rows,
}

module _ {P : Type 0} (size : P → ℕ) where
  -- The bytes of a chunk.
  abbrev pub bytes : List P → ℕ
  bytes [] = 0
  bytes (p ∷ ps) = size p + bytes ps

  bytes-append : (xs ys : List P) → bytes (xs ++ ys) ≡ bytes xs + bytes ys
  bytes-append [] ys = omega arith
  bytes-append (x ∷ xs) ys = omega (arith, bytes-append xs ys)

  -- A chunk that may be sent.
  abbrev pub Fits : ℕ → List P → Type 0
  Fits limit chunk = (is_nil chunk ≡ false) × (bytes chunk ≤ limit)

  -- What the loop keeps: its batches may be sent, and so may the current one unless it is empty.
  abbrev IsLoop : ℕ → List (List P) × List P × ℕ → Type 0
  IsLoop limit (batches, current, current_size) =
      All (Fits limit) batches × (current_size ≡ bytes current) × (bytes current ≤ limit)

  abbrev rows_of : List (List P) × List P × ℕ → List P
  rows_of (batches, current, current_size) = flatten batches ++ current

  is_nil-append : (xs : List P) (p : P) → is_nil (xs ++ (p ∷ [])) ≡ false
  is_nil-append [] p = refl
  is_nil-append (x ∷ xs) p = refl

  grows :
      (limit : ℕ) (p : P) (current : List P) (current_size : ℕ)
      → size p ≤ limit
      → current_size ≡ bytes current
      → (not (is_nil current) && ltb limit (current_size + size p)) ≡ false
      → bytes (current ++ (p ∷ [])) ≤ limit
  grows limit p [] current_size small same e = omega (arith, small)
  grows limit p (x ∷ xs) current_size small same e =
      ground (arith, e, same, bytes-append (x ∷ xs) (p ∷ []))

  add_payload-IsLoop :
      (limit : ℕ) (p : P) (batches : List (List P)) (current : List P) (current_size : ℕ)
      → size p ≤ limit
      → IsLoop limit (batches, current, current_size)
      → IsLoop limit (add_payload size limit p (batches, current, current_size))
        × (rows_of (add_payload size limit p (batches, current, current_size))
            ≡ rows_of (batches, current, current_size) ++ (p ∷ []))
  unfolding add_payload flatten
  add_payload-IsLoop limit p batches current current_size small inv =
      elim (Bool-cases (not (is_nil current) && ltb limit (current_size + size p))) [
        | inl e ↦ rw e (
          (
            All-append (Fits limit) batches (current ∷ []) inv.0 ((ground (arith, e), inv.2), tt),
            omega arith,
            omega (arith, small),
          ),
          ap (λ l. l ++ (p ∷ []))
              (flatten-append batches (current ∷ [])
                ∙ ap (λ l. flatten batches ++ l) (append-nil current)),
        )
        | inr e ↦ rw e (
          (
            inv.0,
            omega (arith, inv.1, bytes-append current (p ∷ [])),
            grows limit p current current_size small inv.1 e,
          ),
          sym (append_assoc (flatten batches) current (p ∷ [])),
        )
      ]

  close_batch-IsLoop :
      (limit : ℕ) (batches : List (List P)) (current : List P) (current_size : ℕ)
      → IsLoop limit (batches, current, current_size)
      → All (Fits limit) (close_batch size (batches, current, current_size))
        × (flatten (close_batch size (batches, current, current_size))
            ≡ rows_of (batches, current, current_size))
  unfolding close_batch flatten
  close_batch-IsLoop limit batches [] current_size inv = (inv.0, sym (append-nil (flatten batches)))
  close_batch-IsLoop limit batches (x ∷ xs) current_size inv = (
    All-append (Fits limit) batches ((x ∷ xs) ∷ []) inv.0 ((refl, inv.2), tt),
    flatten-append batches ((x ∷ xs) ∷ []) ∙ ap (λ l. flatten batches ++ l) (append-nil (x ∷ xs)),
  )

  -- What a cut of the rows is, and what it means that there is none.
  unfoldable pub IsCut : ℕ → List P → List P → Result Failure (List (List P)) → Type 0
  IsCut limit before rows (ok chunks) =
      All (λ p. size p ≤ limit) rows × All (Fits limit) chunks × (flatten chunks ≡ before ++ rows)
  IsCut limit before rows (raise why) = (why ≡ oversized_row) × ¬ All (λ p. size p ≤ limit) rows

  IsCut-cons :
      (limit : ℕ) (p : P) (before before' rows : List P) (r : Result Failure (List (List P)))
      → (small : size p ≤ limit) → before' ≡ before ++ (p ∷ [])
      → IsCut limit before' rows r
      → IsCut limit before (p ∷ rows) r
  unfolding IsCut
  IsCut-cons limit p before before' rows (ok chunks) small e h =
      ((small, h.0), h.1, h.2 ∙ ap (λ l. l ++ rows) e ∙ append_assoc before (p ∷ []) rows)
  IsCut-cons limit p before before' rows (raise why) small e h = (h.0, λ all. h.1 all.1)

  chunk_from-IsCut :
      (limit : ℕ) (rows : List P) (state : List (List P) × List P × ℕ)
      → IsLoop limit state
      → IsCut limit (rows_of state) rows (chunk_from size limit rows state)
  unfolding chunk_from IsCut
  chunk_from-IsCut limit [] (batches, current, current_size) inv =
      let (fits, same) = close_batch-IsLoop limit batches current current_size inv in
      (tt, fits, same ∙ sym (append-nil (rows_of (batches, current, current_size))))
  chunk_from-IsCut limit (p ∷ rows) (batches, current, current_size) inv =
      elim (Bool-cases (ltb limit (size p))) [
        | inl e ↦ rw e (refl, λ all. omega (arith, ltb→lt limit (size p) e, all.0))
        | inr e ↦
            let small : size p ≤ limit = ground (arith, e) in
            let (kept, same) = add_payload-IsLoop limit p batches current current_size small inv in
            rw e (
              IsCut-cons limit p (rows_of (batches, current, current_size)) _ rows _ small same (
                chunk_from-IsCut limit rows
                  (add_payload size limit p (batches, current, current_size)) kept))
      ]

  -- The rows are cut into chunks that are not empty, are no larger than the limit, and are the rows
  -- one after the other; or some row is larger than the limit, and the error says so.
  pub chunk_serialized_rows-IsCut :
      (limit : ℕ) (rows : List P) → IsCut limit [] rows (chunk_serialized_rows size limit rows)
  unfolding chunk_serialized_rows flatten IsCut
  chunk_serialized_rows-IsCut limit rows =
      chunk_from-IsCut limit rows ([], [], 0) (tt, refl, omega arith)
