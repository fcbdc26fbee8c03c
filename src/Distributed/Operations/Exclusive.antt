-- ===== src/Distributed/Operations/Exclusive.antt =====
-- At most one worker holds a valid lease, whichever stores the manager uses.
use Prim.Native.String.{String}
use agora_etl_plugins.Common.{
  ℕ, ◌≡◌, inl, inr, sym, subst, ◌∙◌, Bool, true, false, ok, arith, Bool-cases,
}
use agora_etl_plugins.Distributed.Redis.{Redis}
use agora_etl_plugins.Distributed.Keys.{lease_key}
use agora_etl_plugins.Distributed.Primary
use agora_etl_plugins.Distributed.Primary.Exclusive.{validate-exclusive}
use agora_etl_plugins.Distributed.Redlock
use agora_etl_plugins.Distributed.Redlock.Majority.{validate-exclusive_majority}
use agora_etl_plugins.Distributed.Operations.{Manager, Conditions, World, quorum_of, validate}

module _ (R : Redis) (fallback_validate : String → ℕ → Bool) where
  on_quorum :
      (c : Conditions) (worker p : String) (t : ℕ) (fallback : Bool) (m : Manager) (w : World R)
      → m.redlock_enabled ≡ true
      → (validate R fallback_validate true c worker p t fallback m w).0 ≡ ok true
      → (Redlock.validate R c.first_round
          (lease_key m.primary.key_prefix p)
          worker
          p
          t
          (quorum_of m)
          w.nodes).0
        ≡ ok true
  unfolding validate
  on_quorum c worker p t fallback m w enabled h = ground arith

  on_primary :
      (c : Conditions) (worker p : String) (t : ℕ) (fallback : Bool) (m : Manager) (w : World R)
      → m.redlock_enabled ≡ false
      → (validate R fallback_validate true c worker p t fallback m w).0 ≡ ok true
      → (Primary.validate R c.first_command worker p t m.primary w.redis).0 ≡ ok true
  unfolding validate
  on_primary c worker p t fallback m w disabled h = ground arith

  -- Two workers with a client, under the same key prefix and both with a quorum or both without one,
  -- whose leases of a pipeline are valid at the same time, are one worker with one token, whatever
  -- their networks do.
  pub validate-exclusive_operations :
      (c c' : Conditions) (worker worker' p : String) (t t' : ℕ) (fallback fallback' : Bool)
      (m m' : Manager) (w : World R)
      → m.redlock_enabled ≡ m'.redlock_enabled
      → m.primary.key_prefix ≡ m'.primary.key_prefix
      → (validate R fallback_validate true c worker p t fallback m w).0 ≡ ok true
      → (validate R fallback_validate true c' worker' p t' fallback' m' w).0 ≡ ok true
      → (worker ≡ worker') × (t ≡ t')
  validate-exclusive_operations c c' worker worker' p t t' fallback fallback' m m' w mode prefix a
        b =
      elim (Bool-cases m.redlock_enabled) [
        | inl on ↦
            validate-exclusive_majority R c.first_round c'.first_round
              (lease_key m.primary.key_prefix p) worker worker' p t t' (quorum_of m) (quorum_of m')
              w.nodes (on_quorum c worker p t fallback m w on a)
              (subst
                (λ k.
                  (Redlock.validate R c'.first_round (lease_key k p) worker' p t' (quorum_of m')
                    w.nodes).0
                  ≡ ok true)
                (sym prefix) (on_quorum c' worker' p t' fallback' m' w (sym mode ∙ on) b))
        | inr off ↦
            validate-exclusive R c.first_command c'.first_command worker worker' p t t' m.primary
              m'.primary w.redis prefix (on_primary c worker p t fallback m w off a)
              (on_primary c' worker' p t' fallback' m' w (sym mode ∙ off) b)
      ]
