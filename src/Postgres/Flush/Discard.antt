-- ===== src/Postgres/Flush/Discard.antt =====
-- The rows that leave the buffer after a flush.
use native.Mathlib.Nat.{zero-add, add-zero}
use agora_etl_plugins.Common.{
  ℕ, zero, suc, ◌+◌, ◌≡◌, refl, sym, ap, ◌∙◌, false, List, [], ◌∷◌, length, arith, leb, ◌<◌, lt→ltb,
}
use agora_etl_plugins.Common.Sort.{sort, insert as sort_insert}
use agora_etl_plugins.Postgres.Flush.{delete_at, delete_each, discard_buffer_indexes, range}

-- n - 1, …, 0
abbrev down : ℕ → List ℕ
down zero = []
down (suc n) = n ∷ down n

module _ {A : Type 0} where
  length-delete_at : (i : ℕ) (xs : List A) → i < length xs → length (delete_at i xs) + 1 ≡ length xs
  unfolding delete_at
  length-delete_at i [] h = absurd (omega arith)
  length-delete_at zero (x ∷ xs) h = omega arith
  length-delete_at (suc i) (x ∷ xs) h = omega (arith, length-delete_at i xs)

  delete_each-down : (n : ℕ) (xs : List A) → length xs ≡ n → delete_each (down n) xs ≡ []
  unfolding delete_each
  delete_each-down zero [] h = refl
  delete_each-down zero (x ∷ xs) h = absurd (omega arith)
  delete_each-down (suc n) xs h =
      rw (lt→ltb n (length xs) (omega (arith, h)), delete_each)
        (delete_each-down n (delete_at n xs) (omega (arith, h, length-delete_at n xs)))

-- Numbers from start on, in falling order.
abbrev down_from : ℕ → ℕ → List ℕ
down_from start zero = []
down_from start (suc n) = (start + n) ∷ down_from start n

insert-last :
    (start n : ℕ)
    → sort_insert (λ i j. leb j i) start (down_from (start + 1) n) ≡ down_from start (suc n)
unfolding sort_insert
insert-last start zero = ap (λ k. k ∷ []) (sym (add-zero start))
insert-last start (suc n) =
    let above : leb (start + 1 + n) start ≡ false = ground arith in
    let first : start + 1 + n ≡ start + suc n = omega arith in
    let rest = insert-last start n in rw above (λ i. first i ∷ rest i)

sort-range : (start n : ℕ) → sort (λ i j. leb j i) (range start n) ≡ down_from start n
unfolding sort range
sort-range start zero = refl
sort-range start (suc n) =
    ap (sort_insert (λ i j. leb j i) start) (sort-range (start + 1) n) ∙ insert-last start n

down_from-zero : (n : ℕ) → down_from 0 n ≡ down n
down_from-zero zero = refl
down_from-zero (suc n) = rw (down_from-zero n, zero-add)

pub discard-all : {A : Type 0} (xs : List A) → discard_buffer_indexes (range 0 (length xs)) xs ≡ []
unfolding discard_buffer_indexes
discard-all xs =
    ap (λ l. delete_each l xs) (sort-range 0 (length xs) ∙ down_from-zero (length xs))
    ∙ delete_each-down (length xs) xs refl

pub discard-none : {A : Type 0} (xs : List A) → discard_buffer_indexes [] xs ≡ xs
unfolding discard_buffer_indexes delete_each sort
discard-none xs = refl
