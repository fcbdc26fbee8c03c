-- ===== src/Distributed/Operations/Books.antt =====
-- What the operations leave in the books of the manager.
use Prim.Native.String.{String}
use agora_etl_plugins.Common.Dict
use agora_etl_plugins.Common.Dict.{Dict, get-remove}
use agora_etl_plugins.Common.{
  ◌≡◌, Bool, not, ◌&&◌, ◌||◌, none, arith, if◌then◌else◌, string_eq, ◌==◌,
}
use agora_etl_plugins.Distributed.Redis.{Redis}
use agora_etl_plugins.Distributed.Primary.{pop_lease}
use agora_etl_plugins.Distributed.Operations.{Manager, Conditions, World, discard_lease, release}

module _ (R : Redis) where
  discarded :
      (p q : String) (m : Manager)
      → (Dict.get q (discard_lease p m).primary.lease_tokens
          ≡ (if p == q then none else Dict.get q m.primary.lease_tokens))
        × (Dict.get q (discard_lease p m).redlock_lease_nodes
            ≡ (if p == q then none else Dict.get q m.redlock_lease_nodes))
  unfolding discard_lease pop_lease
  discarded p q m = (get-remove p q m.primary.lease_tokens, get-remove p q m.redlock_lease_nodes)

  -- Whatever the servers and the network do, a release takes the lease of the pipeline and its nodes
  -- out of the books, and no other lease; only with a client whose scripts are not registered the
  -- books stay.
  pub release-forgets :
      (connected : Bool) (c : Conditions) (worker p q : String) (m : Manager) (w : World R)
      → let (done, m', w') = release R connected c worker p m w in
        let forgets = not connected || m.primary.registered in
        (Dict.get q m'.primary.lease_tokens
          ≡ (if forgets && (p == q) then none else Dict.get q m.primary.lease_tokens))
        × (Dict.get q m'.redlock_lease_nodes
            ≡ (if forgets && (p == q) then none else Dict.get q m.redlock_lease_nodes))
  unfolding release
  release-forgets connected c worker p q m w = ground (arith, discarded p q m)
