-- ===== src/Distributed/Redlock.antt =====
-- distributed/redlock_quorum.py, with `renew` in Renewal.antt, and redlock_scripts.py: a lease that a
-- majority of independent Redis nodes keeps. `lease_payload_matches_redlock` is of _shared.py. Each
-- round of calls has its own network: what it does with the call of each node. Times are in
-- microseconds and the drift factor in millionths, without the rounding of floats.
pub mod Rounds
pub mod Majority
pub mod Acquire
pub mod Renewal
mod Tests
use Prim.Native.String.{String}
use agora_etl_plugins.Common.Dict
use agora_etl_plugins.Common.Dict.{Dict}
use agora_etl_plugins.Common.{
  ℕ, zero, suc, ◌+◌, ◌*◌, ◌/◌, Bool, true, false, not, ◌&&◌, List, [], ◌∷◌, map, Option, none, some,
  Result, ok, raise, if◌then◌else◌, ltb, leb, length, string_eq, nat_eq, ◌==◌,
}
use agora_etl_plugins.Distributed.Redis.{Redis, Payload}
use agora_etl_plugins.Distributed.Redis.Calls.{Failure, programming, operational, Network, reach}
use agora_etl_plugins.Distributed.Primary.{LeaseState, shows}

pub record Quorum : Type 0 where
  pub lease_ttl : ℕ
  pub fencing_key_ttl_seconds : ℕ
  pub clock_drift_factor : ℕ
  -- `lease_tokens` of the primary store, which the manager passes
  pub lease_tokens : Dict String LeaseState
  -- for a pipeline, which nodes are in the set of its lease
  pub lease_nodes : Dict String (List Bool)

-- `validity_s(elapsed) > 0`
unfoldable pub is_valid : Quorum → ℕ → Bool
is_valid q elapsed =
    ltb (elapsed + (q.lease_ttl * q.clock_drift_factor + 2000)) (q.lease_ttl * 1000000)

unfoldable pub names_redlock : Option Payload → String → String → ℕ → Bool
names_redlock none worker at token = false
names_redlock (some p) worker at token =
    (p.worker_id == worker) && ((p.acquired_at == at) && shows p.fencing_token token)

-- How many answers of a list pass a test.
unfoldable pub count_if {ℓ} : {A : Type ℓ} → (A → Bool) → List A → ℕ
count_if test [] = 0
count_if test (x ∷ xs) = if test x then count_if test xs + 1 else count_if test xs

abbrev pub said_yes : Option Bool → Bool
said_yes (some true) = true
said_yes _ = false

-- The nodes of a set, by their numbers.
abbrev pub chosen : List Bool → ℕ → Bool
chosen [] i = false
chosen (b ∷ bs) zero = b
chosen (b ∷ bs) (suc i) = chosen bs i

module _ (R : Redis) where
  -- REDLOCK_ACQUIRE_SCRIPT
  unfoldable pub redlock_acquire_script :
      String → String → String → String → ℕ → ℕ → ℕ → R.Server → Bool × R.Server
  redlock_acquire_script lease worker at p run ttl token s = elim (R.get lease s) [
    | some _ ↦ (false, s)
    | none ↦ R.set_nx_ex lease (R.encode worker at p run token) ttl s
  ]

  -- The lease on a server names this worker, time and token: what both scripts and
  -- `lease_payload_matches_redlock` test.
  unfoldable pub matches_redlock : Option R.Value → String → String → ℕ → Bool
  unfolding names_redlock
  matches_redlock none worker at token = false
  matches_redlock (some v) worker at token = names_redlock (R.decode v) worker at token

  -- REDLOCK_RELEASE_SCRIPT
  unfoldable pub redlock_release_script : String → String → String → ℕ → R.Server → Bool × R.Server
  unfolding matches_redlock
  redlock_release_script lease worker at token s =
      if matches_redlock (R.get lease s) worker at token then (true, R.del lease s) else (false, s)

  -- REDLOCK_RENEW_SCRIPT
  unfoldable pub redlock_renew_script :
      String → String → String → ℕ → ℕ → R.Server → Bool × R.Server
  unfolding matches_redlock
  redlock_renew_script lease worker at token ttl s =
      if matches_redlock (R.get lease s) worker at token
      then (true, R.expire lease ttl s)
      else (false, s)

  -- One more answer; a programming error ends the round after all calls are made.
  unfoldable pub add_answer :
      {A : Type 0}
      → Result Failure A
      → Result Failure (List (Option A))
      → Result Failure (List (Option A))
  add_answer (raise programming) answers = raise programming
  add_answer (raise operational) (ok answers) = ok (none ∷ answers)
  add_answer (ok a) (ok answers) = ok (some a ∷ answers)
  add_answer _ (raise e) = raise e

  abbrev no_answer :
      {A : Type 0} → Result Failure (List (Option A)) → Result Failure (List (Option A))
  no_answer (ok answers) = ok (none ∷ answers)
  no_answer (raise e) = raise e

  -- `_run_node_calls` on the nodes that are asked, from node `i` on
  unfoldable pub run_node_calls :
      {A : Type 0}
      → ℕ
      → (ℕ → Network)
      → (ℕ → Bool)
      → (R.Server → A × R.Server)
      → List R.Server
      → Result Failure (List (Option A)) × List R.Server
  unfolding add_answer
  run_node_calls i net asked call [] = (ok [], [])
  run_node_calls i net asked call (s ∷ ss) =
      let (answers, ss') = run_node_calls (i + 1) net asked call ss in
      let (answer, s') = reach (net i) call s in
      if asked i then (add_answer answer answers, s' ∷ ss') else (no_answer answers, s ∷ ss')

  abbrev pub quorum : List R.Server → ℕ
  quorum nodes = length nodes / 2 + 1

  unfoldable pub release_indices :
      (ℕ → Network)
      → String
      → String
      → String
      → ℕ
      → (ℕ → Bool)
      → List R.Server
      → Result Failure (Unit {0}) × List R.Server
  unfolding run_node_calls redlock_release_script
  release_indices net lease worker at token indices nodes =
      let (answers, nodes') =
        run_node_calls 0 net indices (redlock_release_script lease worker at token) nodes in
      (elim answers [ ok _ ↦ ok tt | raise e ↦ raise e ], nodes')

  -- `_reserve_fencing_token`: two commands on the primary server
  reserve_fencing_token : Network → Network → String → ℕ → R.Server → Result Failure ℕ × R.Server
  reserve_fencing_token n n' fence fence_ttl s =
      let (token, s') = reach n (R.incr fence) s in
      let (done, s'') = reach {A = Bool} n' (λ x. (true, R.expire fence fence_ttl x)) s' in
      elim token [
        | raise e ↦ (raise e, s')
        | ok t ↦
            if ltb 0 fence_ttl
            then (elim done [ ok _ ↦ ok t | raise e ↦ raise e ], s'')
            else (ok t, s')
      ]

  -- Once the nodes have answered: keep the lease, or give up what was taken of it.
  unfoldable pub settle_acquire :
      (ℕ → Network)
      → String
      → String
      → LeaseState
      → ℕ
      → Quorum
      → Result Failure (List (Option Bool)) × List R.Server
      → Result Failure Bool × Quorum × List R.Server
  unfolding is_valid count_if release_indices
  settle_acquire net lease_key p lease elapsed q (raise e, nodes) = (raise e, q, nodes)
  settle_acquire net lease_key p lease elapsed q (ok answers, nodes) =
      let acquired = map said_yes answers in
      let (done, nodes') =
        release_indices net lease_key lease.worker_id lease.acquired_at lease.fencing_token
          (chosen acquired) nodes in
      if leb (quorum nodes) (count_if (λ b. b) acquired) && is_valid q elapsed
      then (
        ok true,
        record q {
          lease_tokens = Dict.put p lease q.lease_tokens;
          lease_nodes = Dict.put p acquired q.lease_nodes;
        },
        nodes,
      )
      else (elim done [ ok _ ↦ ok false | raise e ↦ raise e ], q, nodes')

  -- The networks of the two commands to the primary server, of the round that acquires and of the
  -- one that releases; `at` and `elapsed` are what the clocks say.
  unfoldable pub try_acquire :
      Network
      → Network
      → (ℕ → Network)
      → (ℕ → Network)
      → String
      → String
      → String
      → String
      → ℕ
      → String
      → ℕ
      → Quorum
      → R.Server
      → List R.Server
      → Result Failure Bool × Quorum × R.Server × List R.Server
  unfolding reserve_fencing_token settle_acquire redlock_acquire_script run_node_calls
  try_acquire n n' net net' lease_key fencing_key worker p run at elapsed q primary [] =
      (ok false, q, primary, [])
  try_acquire n n' net net' lease_key fencing_key worker p run at elapsed q primary (s ∷ ss) =
      let nodes = s ∷ ss in
      let (reserved, primary') =
        reserve_fencing_token n n' fencing_key q.fencing_key_ttl_seconds primary in
      elim reserved [
        | raise e ↦ (raise e, q, primary', nodes)
        | ok token ↦
            let lease : LeaseState = record {
              pipeline_id = p;
              run_number = run;
              worker_id = worker;
              fencing_token = token;
              acquired_at = at;
              renewed_at = none;
            } in
            let script = redlock_acquire_script lease_key worker at p run q.lease_ttl token in
            let (acquired, q', nodes') =
              settle_acquire net' lease_key p lease elapsed q
                (run_node_calls 0 net (λ i. true) script nodes) in
            (acquired, q', primary', nodes')
      ]

  abbrev answer_matches : String → String → ℕ → Option (Option R.Value) → Bool
  answer_matches worker at token none = false
  answer_matches worker at token (some raw) = matches_redlock raw worker at token

  -- Once the nodes have answered: the lease is valid if a majority holds it, else it is forgotten.
  settle_validate :
      String
      → String
      → String
      → ℕ
      → Quorum
      → ℕ
      → Result Failure (List (Option (Option R.Value)))
      → Result Failure Bool × Quorum
  unfolding matches_redlock count_if
  settle_validate worker p at token q needed (raise e) = (raise e, q)
  settle_validate worker p at token q needed (ok answers) =
      if leb needed (count_if (answer_matches worker at token) answers) then (ok true, q) else (
        ok false,
        record q {
          lease_tokens = Dict.remove p q.lease_tokens;
          lease_nodes = Dict.remove p q.lease_nodes;
        },
      )

  unfoldable pub validate :
      (ℕ → Network)
      → String
      → String
      → String
      → ℕ
      → Quorum
      → List R.Server
      → Result Failure Bool × Quorum
  unfolding run_node_calls settle_validate
  validate net lease_key worker p token q nodes = elim (Dict.get p q.lease_tokens) [
    | none ↦ (ok false, q)
    | some lease ↦
        if lease.fencing_token == token
        then settle_validate worker p lease.acquired_at lease.fencing_token q (quorum nodes)
            (run_node_calls 0 net (λ i. true) (λ s. (R.get lease_key s, s)) nodes).0
        else (ok false, q)
  ]
