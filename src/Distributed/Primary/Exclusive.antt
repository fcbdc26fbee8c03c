-- ===== src/Distributed/Primary/Exclusive.antt =====
-- Who holds the lease of a pipeline on one Redis.
use Prim.Native.String.{String}
use agora_etl_plugins.Common.Dict
use agora_etl_plugins.Common.Dict.{get-put_self, get-remove_self}
use agora_etl_plugins.Common.{
  ℕ, ◌+◌, ◌<◌, ◌≡◌, refl, true, none, some, ok, arith, Option-cases, string_eq, nat_eq,
}
use agora_etl_plugins.Distributed.Redis.{Redis, exact_below}
use agora_etl_plugins.Distributed.Redis.Calls.{Network, works, reach, raise_if_programming_error}
use agora_etl_plugins.Distributed.Keys.{lease_key, fencing_key, lease_key-ne-fencing_key}
use agora_etl_plugins.Distributed.Primary.{
  LeaseState, Store, names, shows, decoded, try_acquire, after_acquire, keep_lease, validate,
  after_get, lease_payload_matches,
}
use agora_etl_plugins.Distributed.Primary.Scripts.{acquire_script-free, names_unique}

module _ (R : Redis) where
  validate-names :
      (net : Network) (worker p : String) (token : ℕ) (store : Store) (s : R.Server)
      → (validate R net worker p token store s).0 ≡ ok true
      → names (decoded R (lease_key store.key_prefix p) s) worker token ≡ true
  unfolding validate after_get lease_payload_matches reach raise_if_programming_error decoded
  validate-names net worker p token store s h =
      ground (arith, Option-cases (R.get (lease_key store.key_prefix p) s))

  names-encode :
      (worker at p : String) (run token : ℕ)
      → token < exact_below
      → names (R.decode (R.encode worker at p run token)) worker token ≡ true
  unfolding names shows
  names-encode worker at p run token small =
      rw (R.decode-encode worker at p run token small)
        (ground (arith, string_eq.beq_iff worker worker, nat_eq.beq_iff token token))

  -- Two workers with one key prefix whose leases of a pipeline are valid on the same server are one worker with one
  -- token, whatever their own books say.
  pub validate-exclusive :
      (n n' : Network) (w w' p : String) (t t' : ℕ) (store store' : Store) (s : R.Server)
      → store.key_prefix ≡ store'.key_prefix
      → (validate R n w p t store s).0 ≡ ok true
      → (validate R n' w' p t' store' s).0 ≡ ok true
      → (w ≡ w') × (t ≡ t')
  validate-exclusive n n' w w' p t t' store store' s same a b =
      names_unique (decoded R (lease_key store.key_prefix p) s) w w' t t'
        (validate-names n w p t store s a) (rw same (validate-names n' w' p t' store' s b))

  -- What `try_acquire` comes to where the lease is free.
  abbrev granted : String → String → ℕ → String → ℕ → LeaseState
  granted worker p run at token = record {
    pipeline_id = p;
    run_number = run;
    worker_id = worker;
    fencing_token = token;
    acquired_at = at;
    renewed_at = none;
  }

  pub try_acquire-free :
      (worker p at : String) (run : ℕ) (store : Store) (s : R.Server)
      → 0 < store.lease_ttl
      → store.registered ≡ true
      → R.get (lease_key store.key_prefix p) s ≡ none
      → let token = R.counter (fencing_key store.key_prefix p) s + 1 in
        let (acquired, store', s') = try_acquire R works worker p run at store s in
        (acquired ≡ ok true)
        × (store' ≡ keep_lease (granted worker p run at token) p store)
        × (R.get (lease_key store.key_prefix p) s' ≡ some (R.encode worker at p run token))
        × (R.counter (fencing_key store.key_prefix p) s' ≡ token)
  unfolding try_acquire after_acquire reach
  try_acquire-free worker p at run store s positive reg free =
      let lease = lease_key store.key_prefix p in
      let fence = fencing_key store.key_prefix p in
      let apart = lease_key-ne-fencing_key store.key_prefix p p in
      let script =
        acquire_script-free R lease fence apart worker at p run store.lease_ttl
          store.fencing_key_ttl_seconds s positive free in
      rw reg (rw script.0 (refl, refl, script.1, script.2))

  -- A worker that acquires a free lease over a working network, with its scripts registered, a
  -- positive time to live and a next token below 10^14, holds that token in its books, and its lease
  -- is valid on the server.
  pub try_acquire-validate :
      (worker p at : String) (run : ℕ) (store : Store) (s : R.Server)
      → 0 < store.lease_ttl
      → R.counter (fencing_key store.key_prefix p) s + 1 < exact_below
      → store.registered ≡ true
      → R.get (lease_key store.key_prefix p) s ≡ none
      → let token = R.counter (fencing_key store.key_prefix p) s + 1 in
        let (acquired, store', s') = try_acquire R works worker p run at store s in
        (acquired ≡ ok true)
        × (Dict.get p store'.lease_tokens
            ≡ some (record {
              pipeline_id = p;
              run_number = run;
              worker_id = worker;
              fencing_token = token;
              acquired_at = at;
              renewed_at = none;
            }))
        × (validate R works worker p token store' s' ≡ (ok true, store'))
  unfolding validate keep_lease after_get lease_payload_matches reach
  try_acquire-validate worker p at run store s positive small reg free =
      let taken = try_acquire-free worker p at run store s positive reg free in
      let token = R.counter (fencing_key store.key_prefix p) s + 1 in
      (
        taken.0,
        rw taken.1 (get-put_self p (granted worker p run at token) store.lease_tokens),
        rw taken.1 (rw taken.2 (rw (names-encode worker at p run token small) refl)),
      )
