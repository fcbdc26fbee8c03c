-- ===== src/Distributed/Primary/Tests.antt =====
-- Leases on a server in memory.
use Prim.Native.String.{String}
use agora_etl_plugins.Common.Dict
use agora_etl_plugins.Common.{
  ℕ, ◌+◌, ◌<◌, ◌≡◌, refl, true, List, [], ◌∷◌, none, some, ok, arith, if◌then◌else◌, string_eq,
  ◌==◌,
}
use agora_etl_plugins.Distributed.Redis.{exact_below}
use agora_etl_plugins.Distributed.Redis.Calls.{works, reach, fails_after, operational}
use agora_etl_plugins.Distributed.Redis.Memory.{Memory, memory}
use agora_etl_plugins.Distributed.Keys.{lease_key, fencing_key}
use agora_etl_plugins.Distributed.Primary.{
  LeaseState, Store, names, decoded, held, try_acquire, validate, renew, lease_payload_matches,
  acquire_local_fallback_lease,
}
use agora_etl_plugins.Distributed.Primary.Exclusive.{validate-exclusive, try_acquire-validate}
use agora_etl_plugins.Distributed.Primary.Fencing.{
  Event, acquires, releases, expires, Increasing, tokens, tokens-Increasing,
}
use agora_etl_plugins.Distributed.Primary.Fallback.{renew_lem}

abbrev books : Store
books = record {
  key_prefix = "agora:distributed:";
  lease_ttl = 300;
  fencing_key_ttl_seconds = 0;
  lease_tokens = [];
  local_fencing_tokens = [];
  registered = true;
}

abbrev empty_server : Memory
empty_server = record { leases = []; counters = [] }

abbrev held_server : Memory
held_server = record {
  leases =
      (
        "agora:distributed:lease:etl",
        record { worker_id = "w1"; acquired_at = "t0"; fencing_token = some 7 },
      )
      ∷ [];
  counters = ("agora:distributed:fence:etl", 7) ∷ [];
}

abbrev first_lease : LeaseState
first_lease = record {
  pipeline_id = "etl";
  run_number = 1;
  worker_id = "w1";
  fencing_token = 1;
  acquired_at = "t0";
  renewed_at = none;
}

abbrev history : List Event
history =
    acquires works "w1" 1 "t0"
    ∷ acquires works "w2" 1 "t1"
    ∷ releases works "w1" first_lease
    ∷ acquires (fails_after operational) "w2" 1 "t2"
    ∷ expires
    ∷ acquires works "w2" 2 "t3"
    ∷ []

valid_run : (validate memory works "w1" "etl" 7 books held_server).0 ≡ ok true
unfolding validate lease_key lease_payload_matches names Dict.get reach
valid_run = refl

validate-exclusive_example : ◌≡◌ {A = String} "w1" "w1" × ◌≡◌ {A = ℕ} 7 7
validate-exclusive_example =
    validate-exclusive memory works works "w1" "w1" "etl" 7 7 books books held_server refl valid_run
      valid_run

small_run : memory.counter (fencing_key "agora:distributed:" "etl") empty_server + 1 < exact_below
unfolding Dict.get fencing_key
small_run = ground arith

free_run : memory.get (lease_key "agora:distributed:" "etl") empty_server ≡ none
unfolding Dict.get
free_run = refl

try_acquire-validate_example :
    let (acquired, store', s') = try_acquire memory works "w1" "etl" 1 "t0" books empty_server in
    let token = memory.counter (fencing_key "agora:distributed:" "etl") empty_server + 1 in
    (acquired ≡ ok true)
    × (Dict.get "etl" store'.lease_tokens ≡ some (record first_lease { fencing_token = token }))
    × (validate memory works "w1" "etl" token store' s' ≡ (ok true, store'))
try_acquire-validate_example =
    try_acquire-validate memory "w1" "etl" "t0" 1 books empty_server (ground arith) small_run refl
      free_run

tokens-Increasing_example : Increasing (tokens memory books "etl" history empty_server)
tokens-Increasing_example = tokens-Increasing memory books "etl" history empty_server (ground arith)

acquire_local_run : (acquire_local_fallback_lease "w1" "etl" 1 "t0" true books).0 ≡ true
unfolding acquire_local_fallback_lease held Dict.get
acquire_local_run = refl

abbrev holding : Store
holding = record books { lease_tokens = ("etl", first_lease) ∷ [] }

known_run : Dict.get "etl" holding.lease_tokens ≡ some first_lease
unfolding Dict.get
known_run = refl

renew_lem_example :
    let (renewed, store', s') = renew memory works "w1" "etl" "t9" holding empty_server in
    let owned = names (decoded memory (lease_key "agora:distributed:" "etl") empty_server) "w1" 1 in
    (renewed ≡ ok owned)
    × (Dict.get "etl" store'.lease_tokens ≡ (
        if ◌==◌ {K = String} "etl" "etl"
        then (if owned then some (record first_lease { renewed_at = some "t9" }) else none)
        else Dict.get "etl" holding.lease_tokens))
renew_lem_example =
    renew_lem memory "w1" "etl" "t9" "etl" first_lease holding empty_server refl known_run
