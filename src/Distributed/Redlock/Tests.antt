-- ===== src/Distributed/Redlock/Tests.antt =====
-- A lease on three nodes in memory, of which one does not answer.
use Prim.Native.String.{String}
use agora_etl_plugins.Common.Dict
use agora_etl_plugins.Common.{
  ℕ, ◌+◌, ◌<◌, ◌≤◌, ◌≡◌, refl, true, false, List, [], ◌∷◌, none, some, ok, arith, if◌then◌else◌,
  nat_beq, string_eq, nat_eq,
}
use agora_etl_plugins.Distributed.Redis.{exact_below}
use agora_etl_plugins.Distributed.Redis.Calls.{Network, works, fails_before, operational, reach}
use agora_etl_plugins.Distributed.Redis.Memory.{Memory, memory}
use agora_etl_plugins.Distributed.Primary.{LeaseState, shows}
use agora_etl_plugins.Distributed.Redlock.Renewal
use agora_etl_plugins.Distributed.Redlock.{
  redlock_renew_script, redlock_release_script, release_indices, Quorum, is_valid, quorum, count_if,
  matches_redlock, names_redlock, run_node_calls, add_answer, redlock_acquire_script,
  reserve_fencing_token, settle_acquire, settle_validate, try_acquire, validate,
}
use agora_etl_plugins.Distributed.Redlock.Majority.{holders, validate-exclusive_majority}
use agora_etl_plugins.Distributed.Redlock.Acquire.{try_acquire-majority}

abbrev books : Quorum
books = record {
  lease_ttl = 300;
  fencing_key_ttl_seconds = 0;
  clock_drift_factor = 10000;
  lease_tokens = [];
  lease_nodes = [];
}

abbrev no_keys : Memory
no_keys = record { leases = []; counters = [] }

abbrev held : Memory
held = record {
  leases =
      ("lease:etl", record { worker_id = "w1"; acquired_at = "t0"; fencing_token = some 1 }) ∷ [];
  counters = [];
}

-- The third node cannot be reached.
abbrev two_of_three : ℕ → Network
two_of_three i = if nat_beq i 2 then fails_before operational else works

abbrev lease : LeaseState
lease = record {
  pipeline_id = "etl";
  run_number = 1;
  worker_id = "w1";
  fencing_token = 1;
  acquired_at = "t0";
  renewed_at = none;
}

abbrev holding : Quorum
holding = record books { lease_tokens = ("etl", lease) ∷ [] }

abbrev nodes : List Memory
nodes = held ∷ held ∷ no_keys ∷ []

valid_run : (validate memory two_of_three "lease:etl" "w1" "etl" 1 holding nodes).0 ≡ ok true
unfolding validate settle_validate run_node_calls add_answer reach count_if matches_redlock
    names_redlock shows Dict.get
valid_run = refl

validate-exclusive_majority_example : ◌≡◌ {A = String} "w1" "w1" × ◌≡◌ {A = ℕ} 1 1
validate-exclusive_majority_example =
    validate-exclusive_majority memory two_of_three two_of_three "lease:etl" "w1" "w1" "etl" 1 1
      holding holding nodes valid_run valid_run

abbrev three : List Memory
three = no_keys ∷ no_keys ∷ no_keys ∷ []

small_run : memory.counter "fence:etl" no_keys + 1 < exact_below
unfolding Dict.get
small_run = ground arith

acquired_run :
    (try_acquire memory works works two_of_three two_of_three "lease:etl" "fence:etl" "w1" "etl" 1
      "t0" 1000 books no_keys three).0
    ≡ ok true
unfolding try_acquire reserve_fencing_token settle_acquire run_node_calls add_answer reach
    redlock_acquire_script count_if is_valid Dict.get Dict.put
acquired_run = refl

try_acquire-majority_example :
    let (acquired, q', primary', nodes') =
      try_acquire memory works works two_of_three two_of_three "lease:etl" "fence:etl" "w1" "etl" 1
        "t0" 1000 books no_keys three in
    let token = memory.counter "fence:etl" no_keys + 1 in
    (Dict.get "etl" q'.lease_tokens ≡ some (record lease { fencing_token = token }))
    × (is_valid books 1000 ≡ true)
    × (quorum memory nodes' ≤ holders memory "lease:etl" "w1" "t0" token nodes')
try_acquire-majority_example =
    try_acquire-majority memory works works two_of_three two_of_three "lease:etl" "fence:etl" "w1"
      "etl" "t0" 1 1000 books no_keys three (ground arith) small_run acquired_run

-- The two nodes that answer do not hold the lease any more.
lost_run :
    (Renewal.renew memory two_of_three two_of_three "lease:etl" "w1" "etl" "t1" 1000 holding
      three).0
    ≡ ok false
unfolding Renewal.renew Renewal.settle_renew Renewal.candidates run_node_calls add_answer reach
    redlock_renew_script redlock_release_script release_indices matches_redlock names_redlock
    count_if is_valid Dict.get Dict.put Dict.remove
lost_run = refl

renew-forgets_example :
    Dict.get "etl"
      (Renewal.renew memory two_of_three two_of_three "lease:etl" "w1" "etl" "t1" 1000 holding
        three).1.lease_tokens
    ≡ none
renew-forgets_example =
    Renewal.renew-forgets memory two_of_three two_of_three "lease:etl" "w1" "etl" "t1" 1000 holding
      three lost_run
