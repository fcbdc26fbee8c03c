-- ===== src/Distributed/Redis/Memory.antt =====
-- A server in memory that satisfies the interface: the laws can hold together.
use Prim.Native.String.{String}
use agora_etl_plugins.Common.Dict
use agora_etl_plugins.Common.Dict.{Dict, get-put, get-remove}
use agora_etl_plugins.Common.{
  ℕ, ◌+◌, ◌≡◌, refl, true, Option, none, some, arith, if◌then◌else◌, string_eq, ◌==◌,
}
use agora_etl_plugins.Distributed.Redis.{Redis, Payload}

-- Leases and counters, apart; nothing expires by itself.
pub record Memory : Type 0 where
  pub leases : Dict String Payload
  pub counters : Dict String ℕ

abbrev pub or_zero : Option ℕ → ℕ
or_zero none = 0
or_zero (some n) = n

abbrev pub memory_counter : String → Memory → ℕ
memory_counter k m = or_zero (Dict.get k m.counters)

abbrev pub memory_incr : String → Memory → ℕ × Memory
memory_incr k m =
    let n = memory_counter k m + 1 in (n, record m { counters = Dict.put k n m.counters })

pub counter-memory_incr :
    (k j : String) (m : Memory)
    → memory_counter j (memory_incr k m).1
      ≡ (if k == j then memory_counter j m + 1 else memory_counter j m)
counter-memory_incr k j m =
    ground (arith, get-put k j (memory_counter k m + 1) m.counters, string_eq.beq_iff k j)

abbrev pub memory : Redis
memory = record {
  Server = Memory;
  Value = Payload;
  get = λ k m. Dict.get k m.leases;
  set_nx_ex = λ k v t m. (true, record m { leases = Dict.put k v m.leases });
  incr = memory_incr;
  expire = λ k t m. m;
  del = λ k m. record m { leases = Dict.remove k m.leases };
  counter = memory_counter;
  encode = λ w a p r n. record { worker_id = w; acquired_at = a; fencing_token = some n };
  decode = some;
  decode-encode = λ w a p r n h. refl;
  set_nx_ex-free = λ k v t s h e. refl;
  get-set_nx_ex = λ k j v t s h e. get-put k j v s.leases;
  counter-set_nx_ex = λ k j v t s e. refl;
  incr-result = λ k s. refl;
  counter-incr = counter-memory_incr;
  get-incr = λ k j s e. refl;
  get-expire = λ k j t s h. refl;
  counter-expire = λ k j t s h. refl;
  get-del = λ k j s. get-remove k j s.leases;
  counter-del = λ k j s e. refl;
}
