-- ===== src/Distributed/Operations/Tests.antt =====
-- Operations over a server in memory.
use Prim.Native.String.{String}
use agora_etl_plugins.Common.Dict
use agora_etl_plugins.Common.{
  ℕ, ◌≡◌, refl, Bool, true, false, not, ◌&&◌, ◌||◌, [], ◌∷◌, none, some, ok, if◌then◌else◌,
  string_eq, nat_eq, ◌==◌,
}
use agora_etl_plugins.Distributed.Redis.Calls.{works, fails_after, operational, reach}
use agora_etl_plugins.Distributed.Redis.Memory.{memory}
use agora_etl_plugins.Distributed.Keys.{lease_key}
use agora_etl_plugins.Distributed.Primary
use agora_etl_plugins.Distributed.Primary.{LeaseState, lease_payload_matches, names}
use agora_etl_plugins.Distributed.Operations.{Manager, Conditions, World, release, validate}
use agora_etl_plugins.Distributed.Operations.Books.{release-forgets}
use agora_etl_plugins.Distributed.Operations.Exclusive.{validate-exclusive_operations}

abbrev lease_held : LeaseState
lease_held = record {
  pipeline_id = "etl";
  run_number = 1;
  worker_id = "w1";
  fencing_token = 7;
  acquired_at = "t0";
  renewed_at = none;
}

abbrev manager : Manager
manager = record {
  primary = record {
    key_prefix = "";
    lease_ttl = 300;
    fencing_key_ttl_seconds = 0;
    lease_tokens = ("etl", lease_held) ∷ [];
    local_fencing_tokens = [];
    registered = true;
  };
  redlock_enabled = false;
  clock_drift_factor = 10000;
  redlock_lease_nodes = [];
}

abbrev calm : Conditions
calm = record {
  first_command = works;
  second_command = works;
  first_round = λ i. works;
  second_round = λ i. works;
  now = "t1";
  elapsed = 10;
}

abbrev cut_off : Conditions
cut_off = record calm { first_command = fails_after operational }

abbrev world : World memory
world = record {
  redis = record {
    leases =
        ("lease:etl", record { worker_id = "w1"; acquired_at = "t0"; fencing_token = some 7 }) ∷ [];
    counters = [];
  };
  nodes = [];
}

abbrev never : String → ℕ → Bool
never p t = false

release-forgets_example :
    let (done, m', w') = release memory true cut_off "w1" "etl" manager world in
    let forgets = not true || manager.primary.registered in
    (Dict.get "etl" m'.primary.lease_tokens ≡ (
      if forgets && ◌==◌ {K = String} "etl" "etl"
      then none
      else Dict.get "etl" manager.primary.lease_tokens))
    × (Dict.get "etl" m'.redlock_lease_nodes ≡ (
        if forgets && ◌==◌ {K = String} "etl" "etl"
        then none
        else Dict.get "etl" manager.redlock_lease_nodes))
release-forgets_example = release-forgets memory true cut_off "w1" "etl" "etl" manager world

valid_operation_run : (validate memory never true calm "w1" "etl" 7 false manager world).0 ≡ ok true
unfolding validate Primary.validate lease_key lease_payload_matches names Dict.get reach
valid_operation_run = refl

validate-exclusive_operations_example : ◌≡◌ {A = String} "w1" "w1" × ◌≡◌ {A = ℕ} 7 7
validate-exclusive_operations_example =
    validate-exclusive_operations memory never calm calm "w1" "w1" "etl" 7 7 false false manager
      manager world refl refl valid_operation_run valid_operation_run
