-- ===== src/Distributed/Redlock/Renewal.antt =====
-- distributed/redlock_quorum.py: `renew`, on the nodes that hold the lease.
use Prim.Native.String.{String}
use agora_etl_plugins.Common.Dict
use agora_etl_plugins.Common.Dict.{Dict, get-remove_self}
use agora_etl_plugins.Common.{
  ℕ, ◌≡◌, refl, Bool, true, false, ◌&&◌, List, map, Option, none, some, Result, ok, raise, arith,
  if◌then◌else◌, leb, string_eq,
}
use agora_etl_plugins.Distributed.Redis.{Redis}
use agora_etl_plugins.Distributed.Redis.Calls.{Failure, Network}
use agora_etl_plugins.Distributed.Primary.{LeaseState}
use agora_etl_plugins.Distributed.Redlock.{
  Quorum, is_valid, count_if, said_yes, chosen, redlock_renew_script, run_node_calls, quorum,
  release_indices,
}

module _ (R : Redis) where
  -- Once the nodes have answered: keep the lease on those that renewed it, or lose it.
  -- `mark_lease_lost` forgets it; the callback that it calls is foreign.
  unfoldable pub settle_renew :
      (ℕ → Network)
      → String
      → String
      → String
      → String
      → LeaseState
      → ℕ
      → Quorum
      → Result Failure (List (Option Bool)) × List R.Server
      → Result Failure Bool × Quorum × List R.Server
  unfolding is_valid count_if release_indices
  settle_renew net lease_key worker p at lease elapsed q (raise e, nodes) = (raise e, q, nodes)
  settle_renew net lease_key worker p at lease elapsed q (ok answers, nodes) =
      let renewed = map said_yes answers in
      let (done, nodes') =
        release_indices R net lease_key worker lease.acquired_at lease.fencing_token
          (chosen renewed) nodes in
      let lost = record q {
        lease_tokens = Dict.remove p q.lease_tokens;
        lease_nodes = Dict.remove p q.lease_nodes;
      } in
      if leb (quorum R nodes) (count_if (λ b. b) renewed) && is_valid q elapsed
      then (
        ok true,
        record q {
          lease_tokens = Dict.put p (record lease { renewed_at = some at }) q.lease_tokens;
          lease_nodes = Dict.put p renewed q.lease_nodes;
        },
        nodes,
      )
      else elim done [ ok _ ↦ (ok false, lost, nodes') | raise e ↦ (raise e, q, nodes') ]

  unfoldable pub candidates : Option (List Bool) → ℕ → Bool
  candidates none i = true
  candidates (some set) i = chosen set i

  unfoldable pub renew :
      (ℕ → Network)
      → (ℕ → Network)
      → String
      → String
      → String
      → String
      → ℕ
      → Quorum
      → List R.Server
      → Result Failure Bool × Quorum × List R.Server
  unfolding run_node_calls redlock_renew_script settle_renew candidates
  renew net net' lease_key worker p at elapsed q nodes = elim (Dict.get p q.lease_tokens) [
    | none ↦ (ok false, q, nodes)
    | some lease ↦ settle_renew net' lease_key worker p at lease elapsed q (
        run_node_calls R 0 net (candidates (Dict.get p q.lease_nodes))
          (redlock_renew_script R lease_key worker lease.acquired_at lease.fencing_token
            q.lease_ttl)
          nodes)
  ]

  settled-forgets :
      (net : ℕ → Network) (lease_key worker p at : String) (l : LeaseState) (elapsed : ℕ)
      (q : Quorum) (round : Result Failure (List (Option Bool)) × List R.Server)
      → (settle_renew net lease_key worker p at l elapsed q round).0 ≡ ok false
      → let q' = (settle_renew net lease_key worker p at l elapsed q round).1 in
        (Dict.get p q'.lease_tokens ≡ none) × (Dict.get p q'.lease_nodes ≡ none)
  unfolding settle_renew
  settled-forgets net lease_key worker p at l elapsed q (raise e, nodes) h = ground arith
  settled-forgets net lease_key worker p at l elapsed q (ok answers, nodes) h =
      ground (arith, get-remove_self p q.lease_tokens, get-remove_self p q.lease_nodes)

  -- A renewal that fails leaves no lease of the pipeline in the books.
  pub renew-forgets :
      (net net' : ℕ → Network) (lease_key worker p at : String) (elapsed : ℕ) (q : Quorum)
      (nodes : List R.Server)
      → (renew net net' lease_key worker p at elapsed q nodes).0 ≡ ok false
      → Dict.get p (renew net net' lease_key worker p at elapsed q nodes).1.lease_tokens ≡ none
  unfolding renew
  renew-forgets net net' lease_key worker p at elapsed q nodes h =
      go (Dict.get p q.lease_tokens) refl h
    where
      round : LeaseState → Result Failure (List (Option Bool)) × List R.Server
      round l =
          run_node_calls R 0 net (candidates (Dict.get p q.lease_nodes))
            (redlock_renew_script R lease_key worker l.acquired_at l.fencing_token q.lease_ttl)
            nodes

      settled : LeaseState → Result Failure Bool × Quorum × List R.Server
      settled l = settle_renew net' lease_key worker p at l elapsed q (round l)

      outcome : Option LeaseState → Result Failure Bool × Quorum × List R.Server
      outcome o = elim o [ none ↦ (ok false, q, nodes) | some l ↦ settled l ]

      go :
          (o : Option LeaseState)
          → Dict.get p q.lease_tokens ≡ o
          → (outcome o).0 ≡ ok false
          → Dict.get p (outcome o).1.lease_tokens ≡ none
      go none e h = e
      go (some l) e h = (settled-forgets net' lease_key worker p at l elapsed q (round l) h).0
