-- ===== src/Distributed/Redlock/Rounds.antt =====
-- What a round of calls says about the nodes.
use Prim.Native.String.{String}
use agora_etl_plugins.Common.{
  ℕ, ◌+◌, ◌/◌, ◌≤◌, ◌<◌, ◌≡◌, inl, inr, refl, Bool, true, ◌&&◌, List, [], ◌∷◌, In, Option, Result,
  ok, raise, arith, if◌then◌else◌, Bool-cases, length,
}
use agora_etl_plugins.Distributed.Redis.{Redis}
use agora_etl_plugins.Distributed.Redis.Calls.{
  Failure, Network, works, fails_before, fails_after, reach,
}
use agora_etl_plugins.Distributed.Redlock.{
  count_if, matches_redlock, answer_matches, add_answer, run_node_calls,
}

-- Two majorities of a list have a member in common.
pub count_if-overlap :
    {A : Type 0} (P Q : A → Bool) (xs : List A)
    → length xs < count_if P xs + count_if Q xs
    → (x : A) × In x xs × (P x ≡ true) × (Q x ≡ true)
unfolding count_if
count_if-overlap P Q [] h = ground arith
count_if-overlap P Q (x ∷ xs) h = elim (Bool-cases (P x && Q x)) [
  | inl both ↦ (x, inl refl, ground arith, ground arith)
  | inr apart ↦
      let later = count_if-overlap P Q xs (ground arith) in (later.0, inr later.1, later.2, later.3)
]

-- More than half, twice, is more than all.
pub majorities : (n a b : ℕ) → n / 2 + 1 ≤ a → n / 2 + 1 ≤ b → n < a + b
majorities n a b h k = omega arith

module _ (R : Redis) where
  -- One more node, given a bound for the others.
  get-bounded :
      (lease worker at : String) (token k : ℕ) (n : Network) (s : R.Server)
      (rest : Result Failure (List (Option (Option R.Value))))
      (answers : List (Option (Option R.Value)))
      → ((bs : List (Option (Option R.Value)))
          → rest ≡ ok bs
          → count_if (answer_matches R worker at token) bs ≤ k)
      → add_answer R (reach n (λ x. (R.get lease x, x)) s).0 rest ≡ ok answers
      → count_if (answer_matches R worker at token) answers
        ≤ (if matches_redlock R (R.get lease s) worker at token then k + 1 else k)
  unfolding add_answer reach count_if
  get-bounded lease worker at token k n s (raise e) answers bound h = ground arith
  get-bounded lease worker at token k works s (ok bs) answers bound h =
      ground (arith, bound bs refl)
  get-bounded lease worker at token k (fails_before e) s (ok bs) answers bound h =
      ground (arith, bound bs refl)
  get-bounded lease worker at token k (fails_after e) s (ok bs) answers bound h =
      ground (arith, bound bs refl)

  -- If asking each node gives so many answers that match, so many nodes match.
  pub gets-bounded :
      (i : ℕ) (net : ℕ → Network) (lease worker at : String) (token : ℕ) (nodes : List R.Server)
      (answers : List (Option (Option R.Value)))
      → (run_node_calls R i net (λ j. true) (λ s. (R.get lease s, s)) nodes).0 ≡ ok answers
      → count_if (answer_matches R worker at token) answers
        ≤ count_if (λ s. matches_redlock R (R.get lease s) worker at token) nodes
  unfolding run_node_calls add_answer reach count_if
  gets-bounded i net lease worker at token [] answers h = ground arith
  gets-bounded i net lease worker at token (s ∷ ss) answers h =
      get-bounded lease worker at token _ (net i) s
        (run_node_calls R (i + 1) net (λ j. true) (λ x. (R.get lease x, x)) ss).0 answers
        (λ bs e. gets-bounded (i + 1) net lease worker at token ss bs e) h
