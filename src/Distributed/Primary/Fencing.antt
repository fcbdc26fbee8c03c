-- ===== src/Distributed/Primary/Fencing.antt =====
-- Fencing tokens along a history of one pipeline's lease: workers that acquire, release and renew
-- it with any network, and the lease that expires.
use Prim.Native.String.{String}
use agora_etl_plugins.Common.Dict
use agora_etl_plugins.Common.Dict.{Dict, get-put_self}
use agora_etl_plugins.Common.{
  ℕ, ◌<◌, ◌≤◌, ◌≡◌, inl, inr, Bool, true, false, List, [], ◌∷◌, All, All-map, Option, none, some,
  Result, ok, raise, arith, if◌then◌else◌, Option-cases, string_eq, nat_eq,
}
use agora_etl_plugins.Distributed.Redis.{Redis}
use agora_etl_plugins.Distributed.Redis.Calls.{
  Failure, programming, operational, Network, works, fails_before, fails_after, reach,
  raise_if_programming_error,
}
use agora_etl_plugins.Distributed.Keys.{lease_key, fencing_key, lease_key-ne-fencing_key}
use agora_etl_plugins.Distributed.Primary.{
  LeaseState, Store, acquire_script, release_script, renew_script, try_acquire, after_acquire,
  keep_lease, release, after_release, renew, after_renew,
}
use agora_etl_plugins.Distributed.Primary.Scripts.{acquire_script-free, acquire_script-held}

pub data Event : Type 0 where
  -- by a worker, in a run, at a time
  acquires : Network → String → ℕ → String → Event
  releases : Network → String → LeaseState → Event
  -- by a worker, at a time, with its books
  renews : Network → String → String → Dict String LeaseState → Event
  expires : Event

-- Each token is above all earlier ones.
abbrev pub Increasing : List ℕ → Type 0
Increasing [] = Unit
Increasing (t ∷ ts) = All (λ u. t < u) ts × Increasing ts

module _ (R : Redis) (store : Store) (p : String) where
  abbrev lease : String
  lease = lease_key store.key_prefix p

  abbrev fence : String
  fence = fencing_key store.key_prefix p

  pub step : Event → R.Server → R.Server
  unfolding try_acquire release renew
  step (acquires net worker run at) s = (try_acquire R net worker p run at store s).2
  step (releases net worker held) s = (release R net worker p held store s).1
  step (renews net worker at books) s =
      (renew R net worker p at (record store { lease_tokens = books }) s).2
  step expires s = R.del (lease_key store.key_prefix p) s

  -- The token that a worker has in its books after it acquired the lease.
  token_in : Option LeaseState → Option ℕ
  token_in none = none
  token_in (some l) = some l.fencing_token

  -- The token that a worker takes away from `try_acquire`.
  outcome : Result Failure Bool × Store × R.Server → Option ℕ
  unfolding token_in
  outcome (ok true, store', s) = token_in (Dict.get p store'.lease_tokens)
  outcome (ok false, store', s) = none
  outcome (raise e, store', s) = none

  pub granted : Event → R.Server → Option ℕ
  unfolding try_acquire outcome
  granted (acquires net worker run at) s = outcome (try_acquire R net worker p run at store s)
  granted _ s = none

  pub tokens : List Event → R.Server → List ℕ
  unfolding step granted
  tokens [] s = []
  tokens (e ∷ es) s =
      let later = tokens es (step e s) in elim (granted e s) [ none ↦ later | some t ↦ t ∷ later ]

  abbrev Between : ℕ → ℕ → Option ℕ → Type 0
  Between low high none = Unit
  Between low high (some t) = (low < t) × (t ≤ high)

  -- What one event does: the counter never goes down, and a token that is given is new.
  abbrev Advances : Option ℕ → R.Server → R.Server → Type 0
  Advances o s s' =
      (R.counter fence s ≤ R.counter fence s') × Between (R.counter fence s) (R.counter fence s') o

  acquire_script-Advances :
      (worker at : String) (run : ℕ) (s : R.Server)
      → 0 < store.lease_ttl
      → let (token, s') =
          acquire_script R lease fence worker at p run store.lease_ttl store.fencing_key_ttl_seconds
            s in
        Advances token s s'
  acquire_script-Advances worker at run s positive = elim (Option-cases (R.get lease s)) [
    | inl free ↦
        let taken =
          acquire_script-free R lease fence (lease_key-ne-fencing_key store.key_prefix p p) worker
            at p run store.lease_ttl store.fencing_key_ttl_seconds s positive free in
        rw taken.0 (rw taken.2 (ground arith, (ground arith, ground arith)))
    | inr other ↦
        rw
          (acquire_script-held R lease fence (lease_key-ne-fencing_key store.key_prefix p p) worker
            at p run store.lease_ttl store.fencing_key_ttl_seconds s other.0 other.1)
          (ground arith, tt)
  ]

  reply-Advances :
      (l : LeaseState) (s s' : R.Server) (token : Option ℕ)
      → Advances token s s'
      → let x = after_acquire R l p store (ok token, s') in Advances (outcome x) s x.2
  unfolding after_acquire keep_lease token_in outcome
  reply-Advances l s s' none h = h
  reply-Advances l s s' (some t) h =
      rw (get-put_self p (record l { fencing_token = t }) store.lease_tokens) h

  after_acquire-Advances :
      (l : LeaseState) (s : R.Server) (net : Network) (f : R.Server → Option ℕ × R.Server)
      → Advances (f s).0 s (f s).1
      → let x = after_acquire R l p store (reach net f s) in Advances (outcome x) s x.2
  unfolding after_acquire reach raise_if_programming_error outcome
  after_acquire-Advances l s works f h = reply-Advances l s (f s).1 (f s).0 h
  after_acquire-Advances l s (fails_before programming) f h = (ground arith, tt)
  after_acquire-Advances l s (fails_before operational) f h = (ground arith, tt)
  after_acquire-Advances l s (fails_after programming) f h = (h.0, tt)
  after_acquire-Advances l s (fails_after operational) f h = (h.0, tt)

  same-Advances : (s s' : R.Server) → R.counter fence s' ≡ R.counter fence s → Advances none s s'
  same-Advances s s' e = (ground arith, tt)

  release-counter :
      (net : Network) (worker : String) (held : LeaseState) (s : R.Server)
      → R.counter fence (release R net worker p held store s).1 ≡ R.counter fence s
  unfolding release after_release reach release_script raise_if_programming_error
  release-counter net worker held s =
      ground (arith, R.counter-del lease fence s (lease_key-ne-fencing_key store.key_prefix p p))

  renew-counter :
      (net : Network) (worker at : String) (books : Dict String LeaseState) (s : R.Server)
      → 0 < store.lease_ttl
      → R.counter fence (renew R net worker p at (record store { lease_tokens = books }) s).2
        ≡ R.counter fence s
  unfolding renew after_renew reach renew_script raise_if_programming_error
  renew-counter net worker at books s positive =
      ground (arith, R.counter-expire lease fence store.lease_ttl s positive)

  either-Advances :
      (b : Bool) (s : R.Server) (x y : Result Failure Bool × Store × R.Server)
      → Advances (outcome x) s x.2
      → Advances (outcome y) s y.2
      → let z = if b then x else y in Advances (outcome z) s z.2
  either-Advances true s x y a b = a
  either-Advances false s x y a b = b

  step-Advances :
      (e : Event) (s : R.Server) → 0 < store.lease_ttl → Advances (granted e s) s (step e s)
  unfolding step granted outcome try_acquire
  step-Advances (acquires net worker run at) s positive =
      let l : LeaseState = record {
        pipeline_id = p;
        run_number = run;
        worker_id = worker;
        fencing_token = 0;
        acquired_at = at;
        renewed_at = none;
      } in
      either-Advances store.registered s _ _
        (after_acquire-Advances l s net _ (acquire_script-Advances worker at run s positive))
        (ground arith, tt)
  step-Advances (releases net worker held) s positive =
      same-Advances s _ (release-counter net worker held s)
  step-Advances (renews net worker at books) s positive =
      same-Advances s _ (renew-counter net worker at books s positive)
  step-Advances expires s positive =
      same-Advances s _
        (R.counter-del lease fence s (lease_key-ne-fencing_key store.key_prefix p p))

  Between-up :
      (low low' : ℕ) (ts : List ℕ) → low ≤ low' → All (λ t. low' < t) ts → All (λ t. low < t) ts
  Between-up low low' ts h = All-map _ _ (λ t above. ground arith) ts

  -- All tokens that a history gives are above the counter at its beginning.
  tokens-above :
      (es : List Event) (s : R.Server)
      → 0 < store.lease_ttl
      → All (λ t. R.counter fence s < t) (tokens es s)
  unfolding tokens
  tokens-above [] s positive = tt
  tokens-above (e ∷ es) s positive =
      let first = step-Advances e s positive in
      let later = Between-up _ _ _ first.0 (tokens-above es (step e s) positive) in
      add-above (granted e s) (tokens es (step e s)) _ _ first.1 later
    where
      add-above :
          (o : Option ℕ) (ts : List ℕ) (low high : ℕ)
          → Between low high o
          → All (λ t. low < t) ts
          → All (λ t. low < t) (elim o [ none ↦ ts | some t ↦ t ∷ ts ])
      add-above none ts low high b a = a
      add-above (some t) ts low high b a = (b.0, a)

  -- Along any history of a pipeline's lease, with workers that come and go, calls that are lost and
  -- leases that expire, each fencing token that a worker is given is above all that were given
  -- before, as long as the counter itself does not expire. The time to live of a lease is positive.
  pub tokens-Increasing :
      (es : List Event) (s : R.Server) → 0 < store.lease_ttl → Increasing (tokens es s)
  unfolding tokens
  tokens-Increasing [] s positive = tt
  tokens-Increasing (e ∷ es) s positive =
      add-Increasing (granted e s) (tokens es (step e s)) _ _ (step-Advances e s positive).1
        (tokens-above es (step e s) positive) (tokens-Increasing es (step e s) positive)
    where
      add-Increasing :
          (o : Option ℕ) (ts : List ℕ) (low high : ℕ)
          → Between low high o
          → All (λ t. high < t) ts
          → Increasing ts
          → Increasing (elim o [ none ↦ ts | some t ↦ t ∷ ts ])
      add-Increasing none ts low high b a i = i
      add-Increasing (some t) ts low high b a i = (All-map _ _ (λ u above. ground arith) ts a, i)
