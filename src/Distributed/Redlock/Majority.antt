-- ===== src/Distributed/Redlock/Majority.antt =====
-- At most one lease of a pipeline is valid on the nodes at a time.
use Prim.Native.String.{String}
use agora_etl_plugins.Common.Dict
use agora_etl_plugins.Common.Dict.{Dict, get-put_self}
use agora_etl_plugins.Common.{
  ℕ, ◌≤◌, ◌≡◌, refl, sym, ◌∙◌, Bool, true, false, List, Option, none, some, Result, ok, raise,
  arith, if◌then◌else◌, length, string_eq, nat_eq, ◌==◌,
}
use agora_etl_plugins.Distributed.Redis.{Redis, Payload}
use agora_etl_plugins.Distributed.Redis.Calls.{Failure, Network}
use agora_etl_plugins.Distributed.Primary.{LeaseState}
use agora_etl_plugins.Distributed.Primary.Scripts.{shows_unique}
use agora_etl_plugins.Distributed.Redlock.{
  Quorum, count_if, names_redlock, matches_redlock, answer_matches, run_node_calls, quorum,
  settle_validate, validate,
}
use agora_etl_plugins.Distributed.Redlock.Rounds.{count_if-overlap, majorities, gets-bounded}

names_redlock-owner :
    (p : Payload) (w at : String) (t : ℕ)
    → names_redlock (some p) w at t ≡ true
    → (p.worker_id ≡ w) × (p.acquired_at ≡ at) × (p.fencing_token ≡ some t)
unfolding names_redlock
names_redlock-owner p w at t h = (
  (string_eq.beq_iff p.worker_id w).0 (ground arith),
  (string_eq.beq_iff p.acquired_at at).0 (ground arith),
  shows_unique p.fencing_token t (ground arith),
)

names_redlock_unique :
    (o : Option Payload) (w w' at at' : String) (t t' : ℕ)
    → names_redlock o w at t ≡ true
    → names_redlock o w' at' t' ≡ true
    → (w ≡ w') × (at ≡ at') × (t ≡ t')
unfolding names_redlock
names_redlock_unique none w w' at at' t t' a b = cc
names_redlock_unique (some p) w w' at at' t t' a b =
    let x = names_redlock-owner p w at t a in
    let y = names_redlock-owner p w' at' t' b in
    (sym x.0 ∙ y.0, sym x.1 ∙ y.1, ground (arith, x.2, y.2))

module _ (R : Redis) where
  matches_redlock_unique :
      (v : Option R.Value) (w w' at at' : String) (t t' : ℕ)
      → matches_redlock R v w at t ≡ true
      → matches_redlock R v w' at' t' ≡ true
      → (w ≡ w') × (at ≡ at') × (t ≡ t')
  unfolding matches_redlock
  matches_redlock_unique none w w' at at' t t' a b = cc
  matches_redlock_unique (some v) w w' at at' t t' a b =
      names_redlock_unique (R.decode v) w w' at at' t t' a b

  -- How many nodes hold a lease.
  abbrev pub holders : String → String → String → ℕ → List R.Server → ℕ
  holders lease w at t nodes = count_if (λ s. matches_redlock R (R.get lease s) w at t) nodes

  settled-majority :
      (lease w p at : String) (t : ℕ) (q : Quorum) (nodes : List R.Server)
      (answers : Result Failure (List (Option (Option R.Value))))
      → ((bs : List (Option (Option R.Value)))
          → answers ≡ ok bs
          → count_if (answer_matches R w at t) bs ≤ holders lease w at t nodes)
      → (settle_validate R w p at t q (quorum R nodes) answers).0 ≡ ok true
      → quorum R nodes ≤ holders lease w at t nodes
  unfolding settle_validate
  settled-majority lease w p at t q nodes (raise e) bound h = ground arith
  settled-majority lease w p at t q nodes (ok bs) bound h = ground (arith, bound bs refl)

  validate-majority :
      (net : ℕ → Network) (lease w p : String) (t : ℕ) (q : Quorum) (nodes : List R.Server)
      → (validate R net lease w p t q nodes).0 ≡ ok true
      → (l : LeaseState) × (Dict.get p q.lease_tokens ≡ some l)
        × (l.fencing_token ≡ t)
        × (quorum R nodes ≤ holders lease w l.acquired_at l.fencing_token nodes)
  unfolding validate
  validate-majority net lease w p t q nodes h = go (Dict.get p q.lease_tokens) h
    where
      asked : Result Failure (List (Option (Option R.Value)))
      asked = (run_node_calls R 0 net (λ i. true) (λ s. (R.get lease s, s)) nodes).0

      settled : LeaseState → Result Failure Bool × Quorum
      settled l = settle_validate R w p l.acquired_at l.fencing_token q (quorum R nodes) asked

      outcome : Option LeaseState → Result Failure Bool × Quorum
      outcome o = elim o [
        | none ↦ (ok false, q)
        | some l ↦ if l.fencing_token == t then settled l else (ok false, q)
      ]

      go :
          (o : Option LeaseState)
          → (outcome o).0 ≡ ok true
          → (l : LeaseState) × (o ≡ some l)
            × (l.fencing_token ≡ t)
            × (quorum R nodes ≤ holders lease w l.acquired_at l.fencing_token nodes)
      go none h = ground arith
      go (some l) h =
          let same : (l.fencing_token == t) ≡ true = ground arith in
          let valid : (settled l).0 ≡ ok true = ground arith in
          (
            l,
            refl,
            (nat_eq.beq_iff l.fencing_token t).0 same,
            settled-majority lease w p l.acquired_at l.fencing_token q nodes asked
                (λ bs e. gets-bounded R 0 net lease w l.acquired_at l.fencing_token nodes bs e)
                valid,
          )

  -- Two workers whose leases of a pipeline are valid on the same nodes, each over its own network,
  -- are one worker with one token and one acquisition, whatever the nodes answer besides.
  pub validate-exclusive_majority :
      (net net' : ℕ → Network) (lease w w' p : String) (t t' : ℕ) (q q' : Quorum)
      (nodes : List R.Server)
      → (validate R net lease w p t q nodes).0 ≡ ok true
      → (validate R net' lease w' p t' q' nodes).0 ≡ ok true
      → (w ≡ w') × (t ≡ t')
  validate-exclusive_majority net net' lease w w' p t t' q q' nodes a b =
      let x = validate-majority net lease w p t q nodes a in
      let y = validate-majority net' lease w' p t' q' nodes b in
      let common = count_if-overlap _ _ nodes (majorities (length nodes) _ _ x.3 y.3) in
      let one = matches_redlock_unique (R.get lease common.0) w w' _ _ _ _ common.2 common.3 in
      (one.0, sym x.2 ∙ one.2 ∙ y.2)
