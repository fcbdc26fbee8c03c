-- ===== src/Distributed/Primary/Fallback.antt =====
-- Leases without Redis, and what the books keep of a lease that is renewed or lost.
use Prim.Native.String.{String}
use agora_etl_plugins.Common.Dict
use agora_etl_plugins.Common.Dict.{get-put, get-put_self, get-remove}
use agora_etl_plugins.Common.{
  ℕ, ◌+◌, ◌≡◌, refl, Bool, true, false, not, ◌&&◌, none, some, ok, arith, if◌then◌else◌, string_eq,
  ◌==◌,
}
use agora_etl_plugins.Distributed.Redis.{Redis}
use agora_etl_plugins.Distributed.Redis.Calls.{works, reach}
use agora_etl_plugins.Distributed.Keys.{lease_key}
use agora_etl_plugins.Distributed.Primary.{
  LeaseState, Store, names, decoded, or_zero, held, keep_lease, pop_lease,
  acquire_local_fallback_lease, renew, after_renew, validate, after_get, lease_payload_matches,
  renew_script,
}

-- The local lease is taken exactly if the fallback is on and the books hold no lease of the
-- pipeline; then its token is one above the last local one, which is remembered.
pub acquire_local_fallback_lease_lem :
    (worker p at : String) (run : ℕ) (fallback : Bool) (store : Store)
    → let (acquired, store') = acquire_local_fallback_lease worker p run at fallback store in
      let token = or_zero (Dict.get p store.local_fencing_tokens) + 1 in
      (acquired ≡ (fallback && not (held (Dict.get p store.lease_tokens))))
      × (Dict.get p store'.lease_tokens ≡ (
          if acquired
          then some (record {
            pipeline_id = p;
            run_number = run;
            worker_id = worker;
            fencing_token = token;
            acquired_at = at;
            renewed_at = none;
          })
          else Dict.get p store.lease_tokens))
      × (Dict.get p store'.local_fencing_tokens
          ≡ (if acquired then some token else Dict.get p store.local_fencing_tokens))
unfolding acquire_local_fallback_lease keep_lease
acquire_local_fallback_lease_lem worker p at run fallback store =
    let token = or_zero (Dict.get p store.local_fencing_tokens) + 1 in
    let lease : LeaseState = record {
      pipeline_id = p;
      run_number = run;
      worker_id = worker;
      fencing_token = token;
      acquired_at = at;
      renewed_at = none;
    } in
    ground (
      arith,
      get-put_self p lease store.lease_tokens,
      get-put_self p token store.local_fencing_tokens,
    )

-- Of two local attempts at a pipeline without a release between them, the second one fails.
pub acquire_local_fallback_lease-twice :
    (w w' p at at' : String) (run run' : ℕ) (fallback fallback' : Bool) (store : Store)
    → (acquire_local_fallback_lease w p run at fallback store).0 ≡ true
    → let store' = (acquire_local_fallback_lease w p run at fallback store).1 in
      acquire_local_fallback_lease w' p run' at' fallback' store' ≡ (false, store')
unfolding acquire_local_fallback_lease held
acquire_local_fallback_lease-twice w w' p at at' run run' fallback fallback' store h =
    refused (acquire_local_fallback_lease w p run at fallback store).1 (taken store h)
  where
    refused :
        (s : Store)
        → held (Dict.get p s.lease_tokens) ≡ true
        → acquire_local_fallback_lease w' p run' at' fallback' s ≡ (false, s)
    refused s e = ground arith

    taken :
        (s : Store)
        → (acquire_local_fallback_lease w p run at fallback s).0 ≡ true
        → held (Dict.get p (acquire_local_fallback_lease w p run at fallback s).1.lease_tokens)
          ≡ true
    taken s h = ground (arith, acquire_local_fallback_lease_lem w p at run fallback s)

module _ (R : Redis) where
  after_renew-books :
      (p at q : String) (lease : LeaseState) (store : Store) (owned : Bool) (s : R.Server)
      → let (renewed, store', s') = after_renew R lease p at store (ok owned, s) in
        (renewed ≡ ok owned)
        × (Dict.get q store'.lease_tokens ≡ (
            if p == q
            then (if owned then some (record lease { renewed_at = some at }) else none)
            else Dict.get q store.lease_tokens))
  unfolding after_renew keep_lease pop_lease
  after_renew-books p at q lease store true s =
      (refl, get-put p q (record lease { renewed_at = some at }) store.lease_tokens)
  after_renew-books p at q lease store false s = (refl, get-remove p q store.lease_tokens)

  -- A renewal of a lease in the books that the server answers, the scripts being registered: if it holds the lease for this worker with the token of the
  -- books, the books keep the lease with a new time; else they lose it. Other leases stay.
  pub renew_lem :
      (worker p at q : String) (lease : LeaseState) (store : Store) (s : R.Server)
      → store.registered ≡ true
      → Dict.get p store.lease_tokens ≡ some lease
      → let (renewed, store', s') = renew R works worker p at store s in
        let owned = names (decoded R (lease_key store.key_prefix p) s) worker lease.fencing_token in
        (renewed ≡ ok owned)
        × (Dict.get q store'.lease_tokens ≡ (
            if p == q
            then (if owned then some (record lease { renewed_at = some at }) else none)
            else Dict.get q store.lease_tokens))
  unfolding renew reach renew_script
  renew_lem worker p at q lease store s reg known =
      let key = lease_key store.key_prefix p in
      let owned = names (decoded R key s) worker lease.fencing_token in
      ground (
        arith,
        after_renew-books p at q lease store owned (R.expire key store.lease_ttl s),
        after_renew-books p at q lease store owned s,
      )

  -- A validation that the server answers says whether the lease on the server names the worker
  -- and the token; on a no the worker forgets its lease of the pipeline, and no other.
  pub validate_lem :
      (worker p q : String) (token : ℕ) (store : Store) (s : R.Server)
      → let (valid, store') = validate R works worker p token store s in
        let owned = lease_payload_matches R (R.get (lease_key store.key_prefix p) s) worker token in
        (valid ≡ ok owned)
        × (Dict.get q store'.lease_tokens
            ≡ (if not owned && (p == q) then none else Dict.get q store.lease_tokens))
  unfolding validate reach after_get pop_lease
  validate_lem worker p q token store s = ground (arith, get-remove p q store.lease_tokens)
