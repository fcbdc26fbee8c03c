-- ===== src/Distributed/Redis.antt =====
-- What the coordinator relies on of Redis, of its client and of cjson, as an interface: the
-- commands that the Lua scripts call, and the laws that the documentation of Redis gives them.
-- A script runs atomically, so it is a function on the server. Time is an event outside: a key
-- that is set to expire may be gone at any later moment.
pub mod Calls
pub mod Memory
use agora_etl_plugins.Common.{
  ℕ, ◌+◌, ◌<◌, ◌^◌, ◌≡◌, Bool, true, false, Option, none, some, if◌then◌else◌, string_eq, ◌==◌,
}
use Prim.Native.String.{String}

-- A lease as it is read back from a server. `fencing_token` is the number whose decimal digits
-- the field is shown with, if there is one.
pub record Payload : Type 0 where
  pub worker_id : String
  pub acquired_at : String
  pub fencing_token : Option ℕ

-- Below this, Lua shows an integer by its digits (`%.14g`).
abbrev pub exact_below : ℕ
exact_below = 10 ^ 14

pub record Redis : Type 1 where
  pub Server : Type 0
  pub Value : Type 0
  pub get : String → Server → Option Value
  pub set_nx_ex : String → Value → ℕ → Server → Bool × Server
  pub incr : String → Server → ℕ × Server
  pub expire : String → ℕ → Server → Server
  pub del : String → Server → Server
  -- the integer at a key, 0 where there is none: what INCR adds one to
  pub counter : String → Server → ℕ
  -- `cjson.encode` of worker, time, pipeline, run and token; `cjson.decode` and `json.loads`
  pub encode : String → String → String → ℕ → ℕ → Value
  pub decode : Value → Option Payload
  pub decode-encode :
      (w a p : String) (r n : ℕ)
      → n < exact_below
      → decode (encode w a p r n)
        ≡ some (record { worker_id = w; acquired_at = a; fencing_token = some n })
  pub set_nx_ex-free :
      (k : String) (v : Value) (t : ℕ) (s : Server)
      → 0 < t
      → get k s ≡ none
      → (set_nx_ex k v t s).0 ≡ true
  pub get-set_nx_ex :
      (k j : String) (v : Value) (t : ℕ) (s : Server)
      → 0 < t
      → get k s ≡ none
      → get j (set_nx_ex k v t s).1 ≡ (if k == j then some v else get j s)
  pub counter-set_nx_ex :
      (k j : String) (v : Value) (t : ℕ) (s : Server)
      → (k == j) ≡ false
      → counter j (set_nx_ex k v t s).1 ≡ counter j s
  pub incr-result : (k : String) (s : Server) → (incr k s).0 ≡ counter k s + 1
  pub counter-incr :
      (k j : String) (s : Server)
      → counter j (incr k s).1 ≡ (if k == j then counter j s + 1 else counter j s)
  pub get-incr : (k j : String) (s : Server) → (k == j) ≡ false → get j (incr k s).1 ≡ get j s
  pub get-expire : (k j : String) (t : ℕ) (s : Server) → 0 < t → get j (expire k t s) ≡ get j s
  pub counter-expire :
      (k j : String) (t : ℕ) (s : Server) → 0 < t → counter j (expire k t s) ≡ counter j s
  pub get-del : (k j : String) (s : Server) → get j (del k s) ≡ (if k == j then none else get j s)
  pub counter-del :
      (k j : String) (s : Server) → (k == j) ≡ false → counter j (del k s) ≡ counter j s
