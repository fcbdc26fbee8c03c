-- ===== src/Distributed/Primary.antt =====
-- distributed/primary_lease_store.py: the lease of a pipeline as one Redis keeps it, the three
-- Lua scripts and RedisPrimaryLeaseStore. `lease_payload_matches` is of _shared.py, and
-- `discard_lease` of lease_runtime.py. The value of a lease key is what the scripts write: JSON that
-- is no object, at which the code raises, is taken for no payload.
pub mod Scripts
pub mod Exclusive
pub mod Fencing
pub mod Fallback
mod Tests
use Prim.Native.String.{String}
use agora_etl_plugins.Common.Dict
use agora_etl_plugins.Common.Dict.{Dict}
use agora_etl_plugins.Common.{
  ℕ, ◌+◌, Bool, true, false, not, ◌&&◌, ◌||◌, Option, none, some, Result, ok, raise, if◌then◌else◌,
  ltb, string_eq, nat_eq, ◌==◌,
}
use agora_etl_plugins.Distributed.Redis.{Redis, Payload}
use agora_etl_plugins.Distributed.Redis.Calls.{Failure, Network, reach, raise_if_programming_error}
use agora_etl_plugins.Distributed.Keys.{lease_key, fencing_key}

-- `LeaseState` of the core
pub record LeaseState : Type 0 where
  pub pipeline_id : String
  pub run_number : ℕ
  pub worker_id : String
  pub fencing_token : ℕ
  pub acquired_at : String
  pub renewed_at : Option String

pub record Store : Type 0 where
  pub key_prefix : String
  pub lease_ttl : ℕ
  pub fencing_key_ttl_seconds : ℕ
  pub lease_tokens : Dict String LeaseState
  pub local_fencing_tokens : Dict String ℕ
  -- whether `register_scripts` has run
  pub registered : Bool

-- Does the payload name this worker and this token?
unfoldable pub shows : Option ℕ → ℕ → Bool
shows none n = false
shows (some m) n = m == n

unfoldable pub names : Option Payload → String → ℕ → Bool
unfolding shows
names none worker token = false
names (some p) worker token = (p.worker_id == worker) && shows p.fencing_token token

unfoldable pub pop_lease : String → Store → Store
pop_lease p s = record s { lease_tokens = Dict.remove p s.lease_tokens }

unfoldable pub keep_lease : LeaseState → String → Store → Store
keep_lease lease p s = record s { lease_tokens = Dict.put p lease s.lease_tokens }

module _ (R : Redis) where
  -- _ACQUIRE_SCRIPT: the token, if the lease was taken.
  unfoldable pub acquire_script :
      String → String → String → String → String → ℕ → ℕ → ℕ → R.Server → Option ℕ × R.Server
  acquire_script lease fence worker at pipeline run ttl fence_ttl s =
      let (token, s') = R.incr fence s in
      let s'' = if ltb 0 fence_ttl then R.expire fence fence_ttl s' else s' in
      let (taken, s''') = R.set_nx_ex lease (R.encode worker at pipeline run token) ttl s'' in
      elim (R.get lease s) [
        | some _ ↦ (none, s)
        | none ↦ (if taken then some token else none, s''')
      ]

  pub decoded : String → R.Server → Option Payload
  decoded key s = elim (R.get key s) [ none ↦ none | some v ↦ R.decode v ]

  -- _RELEASE_SCRIPT
  unfoldable pub release_script : String → String → ℕ → R.Server → Bool × R.Server
  unfolding decoded names
  release_script lease worker token s =
      if names (decoded lease s) worker token then (true, R.del lease s) else (false, s)

  -- _RENEW_SCRIPT
  unfoldable pub renew_script : String → String → ℕ → ℕ → R.Server → Bool × R.Server
  unfolding decoded names
  renew_script lease worker token ttl s =
      if names (decoded lease s) worker token then (true, R.expire lease ttl s) else (false, s)

  -- `lease_payload_matches`, on what `redis.get` answers
  unfoldable pub lease_payload_matches : Option R.Value → String → ℕ → Bool
  unfolding names
  lease_payload_matches none worker token = false
  lease_payload_matches (some v) worker token = names (R.decode v) worker token

  after_acquire :
      LeaseState
      → String
      → Store
      → Result Failure (Option ℕ) × R.Server
      → Result Failure Bool × Store × R.Server
  unfolding keep_lease
  after_acquire lease p store (ok (some token), s) =
      (ok true, keep_lease (record lease { fencing_token = token }) p store, s)
  after_acquire lease p store (ok none, s) = (ok false, store, s)
  after_acquire lease p store (raise e, s) = (raise_if_programming_error e false, store, s)

  -- `at` is what `_now` answers.
  unfoldable pub try_acquire :
      Network
      → String
      → String
      → ℕ
      → String
      → Store
      → R.Server
      → Result Failure Bool × Store × R.Server
  unfolding after_acquire acquire_script
  try_acquire net worker p run at store s =
      let script =
        acquire_script (lease_key store.key_prefix p) (fencing_key store.key_prefix p) worker at p
          run store.lease_ttl store.fencing_key_ttl_seconds in
      let lease : LeaseState = record {
        pipeline_id = p;
        run_number = run;
        worker_id = worker;
        fencing_token = 0;
        acquired_at = at;
        renewed_at = none;
      } in
      if store.registered
      then after_acquire lease p store (reach net script s)
      else (ok false, store, s)

  after_release : Result Failure Bool × R.Server → Result Failure (Unit {0}) × R.Server
  after_release (ok b, s) = (ok tt, s)
  after_release (raise e, s) = (raise_if_programming_error e tt, s)

  unfoldable pub release :
      Network
      → String
      → String
      → LeaseState
      → Store
      → R.Server
      → Result Failure (Unit {0}) × R.Server
  unfolding after_release release_script
  release net worker p lease store s =
      if store.registered
      then after_release
          (reach net (release_script (lease_key store.key_prefix p) worker lease.fencing_token) s)
      else (ok tt, s)

  after_get :
      String → String → ℕ → Store → Result Failure (Option R.Value) → Result Failure Bool × Store
  unfolding lease_payload_matches pop_lease
  after_get worker p token store (raise e) = (raise_if_programming_error e false, store)
  after_get worker p token store (ok raw) =
      if lease_payload_matches raw worker token
      then (ok true, store)
      else (ok false, pop_lease p store)

  unfoldable pub validate :
      Network → String → String → ℕ → Store → R.Server → Result Failure Bool × Store
  unfolding after_get
  validate net worker p token store s =
      after_get worker p token store
        (reach net (λ s. (R.get (lease_key store.key_prefix p) s, s)) s).0

  after_renew :
      LeaseState
      → String
      → String
      → Store
      → Result Failure Bool × R.Server
      → Result Failure Bool × Store × R.Server
  unfolding keep_lease pop_lease
  after_renew lease p at store (raise e, s) = (raise_if_programming_error e false, store, s)
  after_renew lease p at store (ok false, s) = (ok false, pop_lease p store, s)
  after_renew lease p at store (ok true, s) =
      (ok true, keep_lease (record lease { renewed_at = some at }) p store, s)

  -- `mark_lease_lost` discards the lease; the callback that it calls is foreign.
  unfoldable pub renew :
      Network → String → String → String → Store → R.Server → Result Failure Bool × Store × R.Server
  unfolding after_renew renew_script
  renew net worker p at store s =
      if not store.registered then (ok false, store, s) else elim (Dict.get p store.lease_tokens) [
        | none ↦ (ok false, store, s)
        | some lease ↦ after_renew lease p at store (
            reach net
              (renew_script (lease_key store.key_prefix p) worker lease.fencing_token
                store.lease_ttl)
              s)
      ]

unfoldable pub or_zero : Option ℕ → ℕ
or_zero none = 0
or_zero (some n) = n

unfoldable pub held : Option LeaseState → Bool
held none = false
held (some lease) = true

unfoldable pub acquire_local_fallback_lease :
    String → String → ℕ → String → Bool → Store → Bool × Store
unfolding keep_lease held or_zero
acquire_local_fallback_lease worker p run at fallback_to_local store =
    let token = or_zero (Dict.get p store.local_fencing_tokens) + 1 in
    let lease : LeaseState = record {
      pipeline_id = p;
      run_number = run;
      worker_id = worker;
      fencing_token = token;
      acquired_at = at;
      renewed_at = none;
    } in
    if not fallback_to_local || held (Dict.get p store.lease_tokens) then (false, store) else (
      true,
      keep_lease lease p
          (record store { local_fencing_tokens = Dict.put p token store.local_fencing_tokens }),
    )

unfoldable pub renew_local_fallback_lease : String → String → Bool → Store → Bool × Store
unfolding keep_lease
renew_local_fallback_lease p at fallback_to_local store =
    if not fallback_to_local then (false, store) else elim (Dict.get p store.lease_tokens) [
      | none ↦ (false, store)
      | some lease ↦ (true, keep_lease (record lease { renewed_at = some at }) p store)
    ]
