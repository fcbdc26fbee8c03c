-- ===== src/Distributed/Operations.antt =====
-- distributed/lease_operations.py, with `discard_lease` of lease_runtime.py and the quorum calls of
-- lease_manager.py: which of the local fallback, the primary server and the quorum of nodes an
-- operation on a lease goes to. All three keep the leases in the same books.
pub mod Books
pub mod Exclusive
mod Tests
use Prim.Native.String.{String}
use agora_etl_plugins.Common.Dict
use agora_etl_plugins.Common.Dict.{Dict}
use agora_etl_plugins.Common.{
  ℕ, Bool, true, false, not, ◌&&◌, List, Option, none, some, Result, ok, raise, if◌then◌else◌,
  string_eq,
}
use agora_etl_plugins.Distributed.Redis.{Redis}
use agora_etl_plugins.Distributed.Redis.Calls.{Failure, Network}
use agora_etl_plugins.Distributed.Keys.{lease_key, fencing_key}
use agora_etl_plugins.Distributed.Primary
use agora_etl_plugins.Distributed.Primary.{
  LeaseState, Store, pop_lease, held, acquire_local_fallback_lease, renew_local_fallback_lease,
}
use agora_etl_plugins.Distributed.Redlock
use agora_etl_plugins.Distributed.Redlock.Renewal
use agora_etl_plugins.Distributed.Redlock.{Quorum, release_indices}

pub record Manager : Type 0 where
  pub primary : Store
  -- whether URLs of nodes are configured
  pub redlock_enabled : Bool
  pub clock_drift_factor : ℕ
  pub redlock_lease_nodes : Dict String (List Bool)

-- The networks and clocks that an operation meets.
pub record Conditions : Type 0 where
  pub first_command : Network
  pub second_command : Network
  pub first_round : ℕ → Network
  pub second_round : ℕ → Network
  pub now : String
  pub elapsed : ℕ

-- The quorum collaborator works on the books of the primary store.
abbrev pub quorum_of : Manager → Quorum
quorum_of m = record {
  lease_ttl = m.primary.lease_ttl;
  fencing_key_ttl_seconds = m.primary.fencing_key_ttl_seconds;
  clock_drift_factor = m.clock_drift_factor;
  lease_tokens = m.primary.lease_tokens;
  lease_nodes = m.redlock_lease_nodes;
}

abbrev pub with_quorum : Quorum → Manager → Manager
with_quorum q m = record m {
  primary = record m.primary { lease_tokens = q.lease_tokens };
  redlock_lease_nodes = q.lease_nodes;
}

abbrev pub with_primary : Store → Manager → Manager
with_primary store m = record m { primary = store }

unfoldable pub discard_lease : String → Manager → Manager
unfolding pop_lease
discard_lease p m = record m {
  primary = pop_lease p m.primary;
  redlock_lease_nodes = Dict.remove p m.redlock_lease_nodes;
}

module _ (R : Redis) where
  -- The primary server and the nodes.
  pub record World : Type 0 where
    pub redis : R.Server
    pub nodes : List R.Server

  -- `redis is None`: the local fallback alone.
  local_result : Manager → World → Bool × Store → Result Failure Bool × Manager × World
  local_result m w (result, store) = (ok result, with_primary store m, w)

  primary_result :
      Manager
      → World
      → Result Failure Bool × Store × R.Server
      → Result Failure Bool × Manager × World
  primary_result m w (result, store, s) = (result, with_primary store m, record w { redis = s })

  unfoldable pub try_acquire :
      Bool
      → Conditions
      → String
      → String
      → ℕ
      → Bool
      → Manager
      → World
      → Result Failure Bool × Manager × World
  unfolding local_result primary_result
  try_acquire connected c worker p run fallback m w =
      let lease = lease_key m.primary.key_prefix p in
      let fence = fencing_key m.primary.key_prefix p in
      let (result, q, s, nodes) =
        Redlock.try_acquire R c.first_command c.second_command c.first_round c.second_round lease
          fence worker p run c.now c.elapsed (quorum_of m) w.redis w.nodes in
      if not connected
      then local_result m w (acquire_local_fallback_lease worker p run c.now fallback m.primary)
      else if m.redlock_enabled
      then (result, with_quorum q m, record { redis = s; nodes = nodes })
      else primary_result m w
          (Primary.try_acquire R c.first_command worker p run c.now m.primary w.redis)

  -- What is left to do once the lease is out of the books.
  release_remote :
      Conditions
      → String
      → String
      → LeaseState
      → Manager
      → World
      → Result Failure (Unit {0}) × World
  release_remote c worker p lease m w =
      let key = lease_key m.primary.key_prefix p in
      let (done, nodes) =
        release_indices R c.first_round key worker lease.acquired_at lease.fencing_token (λ i. true)
          w.nodes in
      let (done', s) = Primary.release R c.first_command worker p lease m.primary w.redis in
      if m.redlock_enabled
      then (done, record w { nodes = nodes })
      else (done', record w { redis = s })

  unfoldable pub release :
      Bool
      → Conditions
      → String
      → String
      → Manager
      → World
      → Result Failure (Unit {0}) × Manager × World
  unfolding discard_lease release_remote
  release connected c worker p m w =
      if not connected
      then (ok tt, discard_lease p m, w)
      else if not m.primary.registered
      then (ok tt, m, w)
      else elim (Dict.get p m.primary.lease_tokens) [
        | none ↦ (ok tt, discard_lease p m, w)
        | some lease ↦
            let (done, w') = release_remote c worker p lease m w in (done, discard_lease p m, w')
      ]

  -- `fallback_validate` is the callback that the caller passes.
  unfoldable pub validate :
      (String → ℕ → Bool)
      → Bool
      → Conditions
      → String
      → String
      → ℕ
      → Bool
      → Manager
      → World
      → Result Failure Bool × Manager
  validate fallback_validate connected c worker p token fallback m w =
      let (valid, q) =
        Redlock.validate R c.first_round (lease_key m.primary.key_prefix p) worker p token
          (quorum_of m) w.nodes in
      let (valid', store) = Primary.validate R c.first_command worker p token m.primary w.redis in
      if not connected
      then (ok (fallback && fallback_validate p token), m)
      else if m.redlock_enabled
      then (valid, with_quorum q m)
      else (valid', with_primary store m)

  -- `mark_lease_lost` also forgets the nodes of a lease that the primary server did not renew.
  forget_nodes :
      Bool → String → Result Failure Bool × Manager × World → Result Failure Bool × Manager × World
  forget_nodes true p (ok false, m, w) =
      (ok false, record m { redlock_lease_nodes = Dict.remove p m.redlock_lease_nodes }, w)
  forget_nodes known p (result, m, w) = (result, m, w)

  unfoldable pub renew :
      Bool
      → Conditions
      → String
      → String
      → Bool
      → Manager
      → World
      → Result Failure Bool × Manager × World
  unfolding local_result primary_result forget_nodes
  renew connected c worker p fallback m w =
      let (result, q, nodes) =
        Renewal.renew R c.first_round c.second_round (lease_key m.primary.key_prefix p) worker p
          c.now c.elapsed (quorum_of m) w.nodes in
      let known = m.primary.registered && held (Dict.get p m.primary.lease_tokens) in
      if not connected
      then local_result m w (renew_local_fallback_lease p c.now fallback m.primary)
      else if m.redlock_enabled
      then (result, with_quorum q m, record w { nodes = nodes })
      else forget_nodes known p
          (primary_result m w (Primary.renew R c.first_command worker p c.now m.primary w.redis))
