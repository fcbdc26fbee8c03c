-- ===== src/Distributed/Redis/Calls.antt =====
-- A call of a server from the program, and `raise_if_programming_error` of _shared.py. What the
-- network does with a call is an argument: it works, or it raises, before or after the server
-- has done it.
use agora_etl_plugins.Common.{Result, ok, raise}

-- Whether an exception is one of `_PROGRAMMING_ERROR_TYPES`.
pub data Failure : Type 0 where
  programming operational : Failure

pub data Network : Type 0 where
  works : Network
  fails_before fails_after : Failure → Network

unfoldable pub reach {ℓ κ} :
    {S : Type ℓ} {A : Type κ} → Network → (S → A × S) → S → Result Failure A × S
reach works f s = (ok (f s).0, (f s).1)
reach (fails_before e) f s = (raise e, s)
reach (fails_after e) f s = (raise e, (f s).1)

-- The exception that a method lets through.
unfoldable pub raise_if_programming_error {ℓ} : {A : Type ℓ} → Failure → A → Result Failure A
raise_if_programming_error programming a = raise programming
raise_if_programming_error operational a = ok a
