-- ===== src/Distributed/Redlock/Acquire.antt =====
-- What an acquisition leaves on the nodes.
use Prim.Native.String.{String}
use native.Mathlib.Nat.{le_trans}
use agora_etl_plugins.Common.Dict
use agora_etl_plugins.Common.Dict.{Dict, get-put_self}
use agora_etl_plugins.Common.{
  ℕ, ◌+◌, ◌≤◌, ◌<◌, ◌≡◌, refl, Bool, true, false, ◌&&◌, List, [], ◌∷◌, map, Option, none, some,
  Result, ok, raise, arith, if◌then◌else◌, Bool-cases, Option-cases, leb, leb→le, string_eq, nat_eq,
}
use agora_etl_plugins.Distributed.Redis.{Redis, exact_below}
use agora_etl_plugins.Distributed.Redis.Calls.{
  Failure, Network, works, fails_before, fails_after, reach,
}
use agora_etl_plugins.Distributed.Primary.{LeaseState, shows}
use agora_etl_plugins.Distributed.Redlock.{
  Quorum, count_if, names_redlock, matches_redlock, add_answer, run_node_calls, quorum,
  redlock_acquire_script, reserve_fencing_token, settle_acquire, said_yes, is_valid, try_acquire,
  release_indices, chosen,
}
use agora_etl_plugins.Distributed.Redlock.Majority.{holders}

module _ (R : Redis) (lease worker at p : String) (run ttl token : ℕ) (positive : 0 < ttl)
    (small : token < exact_below) where
  abbrev script : R.Server → Bool × R.Server
  script = redlock_acquire_script R lease worker at p run ttl token

  abbrev holds : R.Server → Bool
  holds s = matches_redlock R (R.get lease s) worker at token

  encoded-matches : matches_redlock R (some (R.encode worker at p run token)) worker at token ≡ true
  unfolding matches_redlock names_redlock shows
  encoded-matches = rw (R.decode-encode worker at p run token small) (
      ground (
        arith,
        string_eq.beq_iff worker worker,
        string_eq.beq_iff at at,
        nat_eq.beq_iff token token,
      ))

  -- A node that says yes holds the lease.
  script-holds : (s : R.Server) → (script s).0 ≡ true → holds (script s).1 ≡ true
  unfolding redlock_acquire_script
  script-holds s taken =
      let v = R.encode worker at p run token in
      ground (
        arith,
        Option-cases (R.get lease s),
        R.get-set_nx_ex lease lease v ttl s positive,
        encoded-matches,
        string_eq.beq_iff lease lease,
      )

  reach-bounded :
      (n : Network) (s : R.Server) (k : ℕ) (rest : Result Failure (List (Option Bool)))
      (answers : List (Option Bool))
      → ((bs : List (Option Bool)) → rest ≡ ok bs → count_if (λ b. b) (map said_yes bs) ≤ k)
      → add_answer R (reach n script s).0 rest ≡ ok answers
      → count_if (λ b. b) (map said_yes answers) ≤ (if holds (reach n script s).1 then k + 1 else k)
  unfolding add_answer reach count_if
  reach-bounded n s k (raise e) answers bound h = ground arith
  reach-bounded works s k (ok bs) answers bound h =
      let taken = script-holds s in ground (arith, bound bs refl, taken, Bool-cases (script s).0)
  reach-bounded (fails_before e) s k (ok bs) answers bound h = ground (arith, bound bs refl)
  reach-bounded (fails_after e) s k (ok bs) answers bound h = ground (arith, bound bs refl)

  -- At least the nodes that say yes hold the lease after the round.
  round-bounded :
      (i : ℕ) (net : ℕ → Network) (nodes : List R.Server) (answers : List (Option Bool))
      → (run_node_calls R i net (λ j. true) script nodes).0 ≡ ok answers
      → count_if (λ b. b) (map said_yes answers)
        ≤ holders R lease worker at token (run_node_calls R i net (λ j. true) script nodes).1
  unfolding run_node_calls count_if
  round-bounded i net [] answers h = ground arith
  round-bounded i net (s ∷ ss) answers h =
      reach-bounded (net i) s _ (run_node_calls R (i + 1) net (λ j. true) script ss).0 answers
        (λ bs e. round-bounded (i + 1) net ss bs e) h

  only_yes :
      {A B : Type 0} (c : Bool) (x y : Result Failure Bool × A × B)
      → ((y.0 ≡ ok true) → ⊥)
      → (if c then x else y).0 ≡ ok true
      → (c ≡ true) × ((if c then x else y) ≡ x)
  only_yes true x y no_way h = (refl, refl)
  only_yes false x y no_way h = elim (no_way h) [ ]

  not_yes :
      (done : Result Failure (Unit {0}))
      → ◌≡◌ {A = Result Failure Bool} (elim done [ ok _ ↦ ok false | raise e ↦ raise e ]) (ok true)
      → ⊥
  not_yes (ok x) h = ground (arith, h)
  not_yes (raise e) h = ground (arith, h)

  settled-majority :
      (net : ℕ → Network) (l : LeaseState) (elapsed : ℕ) (q : Quorum)
      (round : Result Failure (List (Option Bool)) × List R.Server)
      → ((answers : List (Option Bool))
          → round.0 ≡ ok answers
          → count_if (λ b. b) (map said_yes answers) ≤ holders R lease worker at token round.1)
      → let (acquired, q', nodes') = settle_acquire R net lease p l elapsed q round in
        acquired ≡ ok true
        → (Dict.get p q'.lease_tokens ≡ some l)
          × (is_valid q elapsed ≡ true)
          × (quorum R nodes' ≤ holders R lease worker at token nodes')
  unfolding settle_acquire
  settled-majority net l elapsed q (raise e, nodes) bound h = ground arith
  settled-majority net l elapsed q (ok answers, nodes) bound h =
      let acquired = map said_yes answers in
      let released =
        release_indices R net lease l.worker_id l.acquired_at l.fencing_token (chosen acquired)
          nodes in
      let refused : Result Failure Bool = elim released.0 [ ok _ ↦ ok false | raise e ↦ raise e ] in
      let kept : Quorum = record q {
        lease_tokens = Dict.put p l q.lease_tokens;
        lease_nodes = Dict.put p acquired q.lease_nodes;
      } in
      let k =
        only_yes (leb (quorum R nodes) (count_if (λ b. b) acquired) && is_valid q elapsed)
          (ok true, kept, nodes) (refused, q, released.1) (not_yes released.0) h in
      let enough : leb (quorum R nodes) (count_if (λ b. b) acquired) ≡ true = ground (arith, k.0) in
      let timely : is_valid q elapsed ≡ true = ground (arith, k.0) in
      let bounded = bound answers refl in
      rw k.1 (get-put_self p l q.lease_tokens, timely, le_trans (leb→le _ _ enough) bounded)

module _ (R : Redis) where
  reserved-token :
      (n n' : Network) (fence : String) (fence_ttl : ℕ) (s : R.Server) (t : ℕ)
      → (reserve_fencing_token R n n' fence fence_ttl s).0 ≡ ok t
      → t ≡ R.counter fence s + 1
  unfolding reserve_fencing_token reach
  reserved-token n n' fence fence_ttl s t h = ground (arith, R.incr-result fence s)

  -- A worker that acquires a lease of the nodes does so in time, has it in its books with the next
  -- token of the primary server, and leaves it on a majority of the nodes. The time to live is
  -- positive and the token below 10^14.
  pub try_acquire-majority :
      (n n' : Network) (net net' : ℕ → Network) (lease fence worker p at : String) (run elapsed : ℕ)
      (q : Quorum) (primary : R.Server) (nodes : List R.Server)
      → 0 < q.lease_ttl
      → R.counter fence primary + 1 < exact_below
      → (try_acquire R n n' net net' lease fence worker p run at elapsed q primary nodes).0
        ≡ ok true
      → let (acquired, q', primary', nodes') =
          try_acquire R n n' net net' lease fence worker p run at elapsed q primary nodes in
        let token = R.counter fence primary + 1 in
        (Dict.get p q'.lease_tokens
          ≡ some (record {
            pipeline_id = p;
            run_number = run;
            worker_id = worker;
            fencing_token = token;
            acquired_at = at;
            renewed_at = none;
          }))
        × (is_valid q elapsed ≡ true)
        × (quorum R nodes' ≤ holders R lease worker at token nodes')
  unfolding try_acquire
  try_acquire-majority n n' net net' lease fence worker p at run elapsed q primary [] positive small
        h =
      ground arith
  try_acquire-majority n n' net net' lease fence worker p at run elapsed q primary (s ∷ ss) positive
        small h =
      go (reserve_fencing_token R n n' fence q.fencing_key_ttl_seconds primary)
        (λ t e. reserved-token n n' fence q.fencing_key_ttl_seconds primary t e) h
    where
      taken : ℕ → LeaseState
      taken token = record {
        pipeline_id = p;
        run_number = run;
        worker_id = worker;
        fencing_token = token;
        acquired_at = at;
        renewed_at = none;
      }

      round : ℕ → Result Failure (List (Option Bool)) × List R.Server
      round token =
          run_node_calls R 0 net (λ i. true)
            (redlock_acquire_script R lease worker at p run q.lease_ttl token) (s ∷ ss)

      settled : ℕ → Result Failure Bool × Quorum × List R.Server
      settled token = settle_acquire R net' lease p (taken token) elapsed q (round token)

      outcome :
          Result Failure ℕ × R.Server → Result Failure Bool × Quorum × R.Server × List R.Server
      outcome x = elim x.0 [
        | raise e ↦ (raise e, q, x.1, s ∷ ss)
        | ok token ↦ ((settled token).0, (settled token).1, x.1, (settled token).2)
      ]

      go :
          (x : Result Failure ℕ × R.Server)
          → ((t : ℕ) → x.0 ≡ ok t → t ≡ R.counter fence primary + 1)
          → (outcome x).0 ≡ ok true
          → (Dict.get p (outcome x).1.lease_tokens ≡ some (taken (R.counter fence primary + 1)))
            × (is_valid q elapsed ≡ true)
            × (quorum R (outcome x).3
                ≤ holders R lease worker at (R.counter fence primary + 1) (outcome x).3)
      go (raise e, primary') next h = ground arith
      go (ok t, primary') next h = rw⁻¹ (next t refl) (
          settled-majority R lease worker at p run q.lease_ttl t positive (rw (next t refl) small)
            net' (taken t) elapsed q (round t)
            (λ answers e.
              round-bounded R lease worker at p run q.lease_ttl t positive (rw (next t refl) small)
                0 net (s ∷ ss) answers e)
            h)
