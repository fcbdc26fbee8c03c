-- ===== src/RedisStream/Reclaim.antt =====
-- redis/sources/_stream_runtime.py: which of its two reads the loop of a Redis stream source does in a
-- turn: messages that another consumer left (`xautoclaim`), or entries of the stream
-- (`xreadgroup`). What the server answers is given with the turn; what the loop does with the
-- entries (`yield_entries`) is left out, with times and log lines. Of the messages their number is
-- kept. Errors that are remembered, and the flush of acknowledgements on a cancellation, are left out too.
pub mod Fair
mod Tests
use agora_etl_plugins.Common.{
  ℕ, zero, suc, ◌+◌, String, Bool, true, false, not, ◌||◌, Option, none, some, List, [], ◌∷◌,
  if◌then◌else◌, ltb,
}
use agora_etl_plugins.Kafka.Poison.{Signal, returned, raised}

pub record Reader : Type 0 where
  pub connected : Bool
  pub reclaim_idle_ms : Option ℕ
  pub resume_pending : Bool
  pub max_consecutive_reclaim_batches : Option ℕ
  pub consecutive_reclaim_batch_count : ℕ
  pub reclaim_fairness_yield_count : ℕ
  pub reclaimed_message_count : ℕ
  pub reclaim_cursor : String
  pub read_call_count : ℕ

-- What `xautoclaim` does: the client lacks it; a response, as `_parse_xautoclaim_response` reads it,
-- with the number of its messages; or an error that the source recovers from, or does not.
pub data Claim : Type 0 where
  no_such_method : Claim
  response : String → ℕ → Claim
  claim_recovered claim_raises : Claim

-- What `xreadgroup` does, with the number of the entries.
pub data Read : Type 0 where
  entries : ℕ → Read
  read_recovered read_raises : Read

pub record Answers : Type 0 where
  pub claim : Claim
  pub read : Read

abbrev is_none {ℓ} : {A : Type ℓ} → Option A → Bool
is_none none = true
is_none (some x) = false

abbrev reset : Reader → Reader
reset r = record r { consecutive_reclaim_batch_count = 0 }

below : ℕ → Reader → Reader × Bool
below bound r =
    if is_none r.reclaim_idle_ms || r.resume_pending
    then (r, true)
    else if ltb r.consecutive_reclaim_batch_count bound
    then (r, true)
    else (
      record (reset r) { reclaim_fairness_yield_count = r.reclaim_fairness_yield_count + 1 },
      false,
    )

bounded_by : Option ℕ → Reader → Reader × Bool
unfolding below
bounded_by none r = (r, true)
bounded_by (some bound) r = below bound r

unfoldable pub should_read_reclaimed_messages : Reader → Reader × Bool
unfolding bounded_by
should_read_reclaimed_messages r = bounded_by r.max_consecutive_reclaim_batches r

-- The number of messages that were reclaimed.
after_claim : Claim → Reader → Reader × ℕ × Signal
after_claim no_such_method r = (reset r, 0, returned)
after_claim claim_recovered r = (reset r, 0, returned)
after_claim claim_raises r = (r, 0, raised)
after_claim (response cursor zero) r = (record (reset r) { reclaim_cursor = cursor }, 0, returned)
after_claim (response cursor (suc n)) r = (
  record r {
    reclaim_cursor = cursor;
    reclaimed_message_count = r.reclaimed_message_count + suc n;
    consecutive_reclaim_batch_count = r.consecutive_reclaim_batch_count + 1;
  },
  suc n,
  returned,
)

unfoldable pub read_reclaimed_messages : Claim → Reader → Reader × ℕ × Signal
unfolding after_claim
read_reclaimed_messages claim r =
    if not r.connected || is_none r.reclaim_idle_ms || r.resume_pending
    then (reset r, 0, returned)
    else after_claim claim r

-- `if not entries: if resume_pending: resume_pending = False`
after_read : Read → Reader → Reader × Signal
after_read read_recovered r = (r, returned)
after_read read_raises r = (r, raised)
after_read (entries zero) r = (record r { resume_pending = false }, returned)
after_read (entries (suc n)) r = (r, returned)

-- `_require_client` raises where there is no client, and that is not an error of the connection.
read_entries : Read → Reader → Reader × Signal
unfolding after_read
read_entries read r =
    if r.connected
    then after_read read (record r { read_call_count = r.read_call_count + 1 })
    else (r, raised)

-- `continue` where messages were reclaimed.
or_read : Read → Reader × ℕ × Signal → Reader × Signal
unfolding read_entries
or_read read (r, n, raised) = (r, raised)
or_read read (r, zero, returned) = read_entries read r
or_read read (r, suc n, returned) = (r, returned)

reclaim_or_read : Answers → Reader × Bool → Reader × Signal
unfolding or_read read_reclaimed_messages read_entries
reclaim_or_read answers (r, true) = or_read answers.read (read_reclaimed_messages answers.claim r)
reclaim_or_read answers (r, false) = read_entries answers.read r

-- One turn of `while True`.
unfoldable pub turn : Answers → Reader → Reader × Signal
unfolding reclaim_or_read should_read_reclaimed_messages
turn answers r = reclaim_or_read answers (should_read_reclaimed_messages r)

follow : Reader × Signal → (Reader → Reader × Signal) → Reader × Signal
follow (r, returned) next = next r
follow (r, raised) next = (r, raised)

-- The turns up to one that raises.
unfoldable pub turns : List Answers → Reader → Reader × Signal
unfolding turn follow
turns [] r = (r, returned)
turns (answers ∷ rest) r = follow (turn answers r) (turns rest)
