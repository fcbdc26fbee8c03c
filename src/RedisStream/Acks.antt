-- ===== src/RedisStream/Acks.antt =====
-- redis/sources/_ack_runtime.py: `RedisAckRuntime`, the acknowledgements that wait to be sent, and
-- redis/sources/_connection_runtime.py: how the source gets a new client after a connection error.
-- The server, the client and the retry policy are other code: a call may raise. Times, log lines and
-- the flag `_group_ready` are left out, and the source is a single task.
pub mod Kept
mod Tests
use agora_etl_plugins.Common.{
  ℕ, zero, suc, ◌+◌, Bool, true, false, not, ◌||◌, Option, none, some, List, [], ◌∷◌, ◌++◌,
  if◌then◌else◌, leb, length,
}
use agora_etl_plugins.Common.Sets.{is_nil}
use agora_etl_plugins.Kafka.Poison.{Signal, returned, raised}

pub record Acks (MessageId E : Type 0) : Type 0 where
  pub connected : Bool
  pub pending_ack_ids : List MessageId
  pub ack_batch_size : ℕ
  pub ack_flush_count : ℕ
  pub acked_message_count : ℕ
  pub reconnect_count : ℕ
  pub last_error : Option E

module _ {MessageId E : Type 0} where
  abbrev pub remember_error : E → Acks MessageId E → Acks MessageId E
  remember_error e a = record a { last_error = some e }

  abbrev pub with_pending : List MessageId → Acks MessageId E → Acks MessageId E
  with_pending ids a = record a { pending_ack_ids = ids }

  -- The statements after a call of `xack` that returned.
  unfoldable pub acked : List MessageId → Acks MessageId E → Acks MessageId E
  acked ids a = record a {
    ack_flush_count = a.ack_flush_count + 1;
    acked_message_count = a.acked_message_count + length ids;
  }

  unfoldable pub reconnected : Acks MessageId E → Acks MessageId E
  reconnected a = record a { connected = true; reconnect_count = a.reconnect_count + 1 }

-- `xack` answers with what it raised; `connects` is `build_client` and then `ensure_group`.
module _ {MessageId E S : Type 0} (xack : List MessageId → S → S × Option E)
    (connects : S → S × Option E) (is_retryable : E → Bool) (should_retry : E → ℕ → Bool)
    (max_attempts : ℕ) where
  after_connect :
      ℕ
      → Acks MessageId E
      → S × Option E
      → (Acks MessageId E → S → Option (Acks MessageId E × S × Option E))
      → Option (Acks MessageId E × S × Option E)
  unfolding reconnected
  after_connect attempt a (s, none) next = some (reconnected a, s, none)
  after_connect attempt a (s, some e) next =
      let again = next (remember_error e a) s in
      if should_retry e attempt then again else some (remember_error e a, s, some e)

  -- The loop of `reconnect_client`, which ends with what it raises.
  unfoldable pub reconnect_loop :
      ℕ → ℕ → Acks MessageId E → S → Option (Acks MessageId E × S × Option E)
  unfolding after_connect
  reconnect_loop zero attempt a s = none
  reconnect_loop (suc n) attempt a s =
      after_connect attempt a (connects s) (reconnect_loop n (attempt + 1))

  unfoldable pub reconnect_client : Acks MessageId E → S → Option (Acks MessageId E × S × Option E)
  unfolding reconnect_loop
  reconnect_client a s = reconnect_loop (suc max_attempts) 1 (record a { connected = false }) s

  -- The second call of `xack`, with all that is pending by then.
  after_retry : List MessageId → Acks MessageId E → S × Option E → Acks MessageId E × S × Signal
  unfolding acked
  after_retry ids a (s, none) = (acked ids a, s, returned)
  after_retry ids a (s, some e) = (with_pending (ids ++ a.pending_ack_ids) a, s, raised)

  retry : Acks MessageId E × S × Option E → Acks MessageId E × S × Signal
  unfolding after_retry
  retry (a, s, some e) = (a, s, raised)
  retry (a, s, none) = after_retry a.pending_ack_ids (with_pending [] a) (xack a.pending_ack_ids s)

  abbrev map_option : {A B : Type 0} → (A → B) → Option A → Option B
  map_option f none = none
  map_option f (some x) = some (f x)

  recover : E → Acks MessageId E → S → Option (Acks MessageId E × S × Signal)
  unfolding retry reconnect_client
  recover e a s =
      if is_retryable e
      then map_option retry (reconnect_client (remember_error e a) s)
      else some (a, s, raised)

  after_xack :
      List MessageId → Acks MessageId E → S × Option E → Option (Acks MessageId E × S × Signal)
  unfolding acked recover
  after_xack ids a (s, none) = some (acked ids a, s, returned)
  after_xack ids a (s, some e) = recover e (with_pending (ids ++ a.pending_ack_ids) a) s

  unfoldable pub flush_pending_acks : Acks MessageId E → S → Option (Acks MessageId E × S × Signal)
  unfolding after_xack
  flush_pending_acks a s =
      if not a.connected || is_nil a.pending_ack_ids
      then some (a, s, returned)
      else after_xack a.pending_ack_ids (with_pending [] a) (xack a.pending_ack_ids s)

  unfoldable pub enqueue_ack :
      MessageId → Acks MessageId E → S → Option (Acks MessageId E × S × Signal)
  unfolding flush_pending_acks
  enqueue_ack id a s =
      let a' = with_pending (a.pending_ack_ids ++ (id ∷ [])) a in
      if leb a.ack_batch_size (length a'.pending_ack_ids)
      then flush_pending_acks a' s
      else some (a', s, returned)

  -- The callback of `build_ack_callback`, which raises once the client is closed.
  unfoldable pub ack_callback :
      MessageId → Acks MessageId E → S → Option (Acks MessageId E × S × Signal)
  unfolding enqueue_ack
  ack_callback id a s = if a.connected then enqueue_ack id a s else some (a, s, raised)

  after_failure_ack : Acks MessageId E → S × Option E → Acks MessageId E × S × Signal
  after_failure_ack a (s, some e) = (a, s, raised)
  after_failure_ack a (s, none) = (
    record a {
      ack_flush_count = a.ack_flush_count + 1;
      acked_message_count = a.acked_message_count + 1;
    },
    s,
    returned,
  )

  -- The callback of `build_failure_ack_callback`.
  unfoldable pub failure_ack_callback :
      MessageId → Acks MessageId E → S → Acks MessageId E × S × Signal
  unfolding after_failure_ack
  failure_ack_callback id a s =
      if a.connected then after_failure_ack a (xack (id ∷ []) s) else (a, s, raised)
