-- ===== src/Kafka/Sink.antt =====
-- kafka/sinks/kafka.py: the sends of `KafkaSink`, the confirmations that it waits for, and its
-- transactions. The producer, the serializer and `retry_async` are other code, which may raise: a send
-- gives a delivery or raises, a delivery is confirmed or raises. `confirmed` is a history variable:
-- the messages whose confirmation returned. Spans and log lines are left out.
pub mod Confirmed
pub mod Batches
mod Tests
use agora_etl_plugins.Common.{
  ℕ, Bool, true, false, not, ◌&&◌, Option, none, some, List, [], ◌∷◌, ◌++◌, if◌then◌else◌, leb,
  length,
}
use agora_etl_plugins.Kafka.Poison.{Signal, returned, raised}

pub record Sink (M D : Type 0) : Type 0 where
  pub opened : Bool
  pub max_pending_acks : ℕ
  pub transaction_per_batch : Bool
  pub in_transaction : Bool
  pub pending_acks : List (M × D)
  pub confirmed : List M

-- The calls of other code, and the functions that the sink was given. `send_with_retry` gives a
-- delivery or raises, and `send_and_confirm` is `retry_async` of a send and its confirmation.
pub record Calls (T V M D E S : Type 0) : Type 0 where
  pub send_with_retry : M → S → S × Option D
  pub await_delivery : D → S → S × Option E
  pub should_retry : E → Bool
  pub send_and_confirm : M → S → S × Bool
  pub publish_message_for : T → Option M
  pub serialize : T → Option V
  pub message_of : T → V → Option M
  pub has_message_fn : Bool
  pub begin_method : Option (S → S × Bool)
  pub commit_method : Option (S → S × Bool)
  pub abort_method : Option (S → S × Bool)
  pub producer_flush : S → S × Bool

module _ {T V M D E S : Type 0} (c : Calls T V M D E S) where
  abbrev pub Step : Type 0
  Step = Sink M D → S → Sink M D × S × Signal

  -- What a statement that may raise is followed by.
  unfoldable pub and_then : Sink M D × S × Signal → Step → Sink M D × S × Signal
  and_then (k, s, returned) next = next k s
  and_then (k, s, raised) next = (k, s, raised)

  unfoldable pub after_await : M → S × Option E → S × Bool
  after_await m (s, none) = (s, true)
  after_await m (s, some e) =
      let again = c.send_and_confirm m s in if c.should_retry e then again else (s, false)

  -- `_DeliveryConfirmation._confirm`
  unfoldable pub confirm : M × D → S → S × Bool
  unfolding after_await
  confirm (m, d) s = after_await m (c.await_delivery d s)

  unfoldable pub settled : M → Sink M D → S × Bool → Sink M D × S × Signal
  settled m k (s, true) = (record k { confirmed = k.confirmed ++ (m ∷ []) }, s, returned)
  settled m k (s, false) = (k, s, raised)

  unfoldable pub await_first : List (M × D) → Step
  unfolding settled confirm
  await_first [] k s = (k, s, returned)
  await_first (first ∷ rest) k s =
      settled first.0 (record k { pending_acks = rest }) (confirm first s)

  unfoldable pub await_oldest_ack : Step
  unfolding await_first
  await_oldest_ack k s = await_first k.pending_acks k s

  -- The loop takes one delivery off in each turn.
  unfoldable pub drain_each : List (M × D) → Step
  unfolding await_oldest_ack and_then
  drain_each [] k s = (k, s, returned)
  drain_each (first ∷ rest) k s = and_then (await_oldest_ack k s) (drain_each rest)

  unfoldable pub drain_pending_acks : Step
  unfolding drain_each
  drain_pending_acks k s = drain_each k.pending_acks k s

  unfoldable pub after_send : M → Sink M D → S × Option D → Sink M D × S × Signal
  unfolding await_oldest_ack
  after_send m k (s, none) = (k, s, raised)
  after_send m k (s, some d) =
      let k' = record k { pending_acks = k.pending_acks ++ ((m, d) ∷ []) } in
      if leb k.max_pending_acks (length k'.pending_acks)
      then await_oldest_ack k' s
      else (k', s, returned)

  -- The send of a message that could be made of its record.
  unfoldable pub send_message : Option M → Step
  unfolding after_send
  send_message none k s = (k, s, raised)
  send_message (some m) k s = after_send m k (c.send_with_retry m s)

  unfoldable pub enqueue_send : T → Step
  unfolding send_message
  enqueue_send r k s =
      if k.opened then send_message (c.publish_message_for r) k s else (k, s, raised)

  unfoldable pub write : T → Step
  unfolding enqueue_send
  write r k s = enqueue_send r k s

  unfoldable pub send_all : List (Option M) → Step
  unfolding send_message and_then
  send_all [] k s = (k, s, returned)
  send_all (m ∷ messages) k s = and_then (send_message m k s) (send_all messages)

  unfoldable pub enqueue_all : List T → Step
  unfolding enqueue_send and_then
  enqueue_all [] k s = (k, s, returned)
  enqueue_all (r ∷ records) k s = and_then (enqueue_send r k s) (enqueue_all records)

  -- The whole batch is serialized before the first send; none where a record cannot be.
  unfoldable pub serialize_all : List T → Option (List (Option M))
  serialize_all [] = some []
  serialize_all (r ∷ records) = elim (c.serialize r) [
    | none ↦ none
    | some v ↦ elim (serialize_all records) [
      | none ↦ none
      | some messages ↦ some (c.message_of r v ∷ messages)
    ]
  ]

  unfoldable pub send_values : Option (List (Option M)) → Step
  unfolding send_all
  send_values none k s = (k, s, raised)
  send_values (some messages) k s = send_all messages k s

  unfoldable pub write_batch_unwrapped : List T → Step
  unfolding enqueue_all send_values serialize_all
  write_batch_unwrapped records k s =
      if c.has_message_fn then enqueue_all records k s else send_values (serialize_all records) k s

  -- The call of a method for transactions, and what follows it where it does not raise.
  unfoldable pub call_method : Option (S → S × Bool) → Bool → Step
  call_method none in_transaction k s = (k, s, raised)
  call_method (some method) in_transaction k s =
      let (s', fine) = method s in
      if fine then (record k { in_transaction = in_transaction }, s', returned) else (k, s', raised)

  unfoldable pub begin_transaction : Step
  unfolding call_method
  begin_transaction k s = if k.opened then call_method c.begin_method true k s else (k, s, raised)

  unfoldable pub commit_with : Option (S → S × Bool) → Step
  unfolding and_then drain_pending_acks call_method
  commit_with none k s = (k, s, raised)
  commit_with (some commit) k s =
      and_then (drain_pending_acks k s) (call_method (some commit) false)

  unfoldable pub commit_transaction : Step
  unfolding commit_with
  commit_transaction k s = if k.opened then commit_with c.commit_method k s else (k, s, raised)

  abort_with : Option (S → S × Bool) → Step
  unfolding call_method
  abort_with none k s = (k, s, raised)
  abort_with (some abort) k s = call_method (some abort) false (record k { pending_acks = [] }) s

  unfoldable pub abort_transaction : Step
  unfolding abort_with
  abort_transaction k s = if k.opened then abort_with c.abort_method k s else (k, s, raised)

  raise_after : Sink M D × S × Signal → Sink M D × S × Signal
  raise_after (k, s, signal) = (k, s, raised)

  -- After the body: commit, or abort and raise again.
  unfoldable pub leave : Sink M D × S × Signal → Sink M D × S × Signal
  unfolding commit_transaction abort_transaction raise_after
  leave (k, s, returned) = commit_transaction k s
  leave (k, s, raised) = raise_after (abort_transaction k s)

  -- `async with self.transaction(): …`
  unfoldable pub transaction : Step → Step
  unfolding begin_transaction leave and_then
  transaction body k s = and_then (begin_transaction k s) (λ k s. leave (body k s))

  unfoldable pub write_batch : List T → Step
  unfolding transaction write_batch_unwrapped
  write_batch records k s =
      if not k.opened
      then (k, s, raised)
      else if k.transaction_per_batch && not k.in_transaction
      then transaction (write_batch_unwrapped records) k s
      else write_batch_unwrapped records k s

  after_flush : Sink M D → S × Bool → Sink M D × S × Signal
  after_flush k (s, true) = (k, s, returned)
  after_flush k (s, false) = (k, s, raised)

  unfoldable pub flush : Step
  unfolding drain_pending_acks and_then after_flush
  flush k s =
      if k.opened
      then and_then (drain_pending_acks k s) (λ k s. after_flush k (c.producer_flush s))
      else (k, s, returned)
