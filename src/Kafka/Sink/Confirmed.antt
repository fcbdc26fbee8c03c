-- ===== src/Kafka/Sink/Confirmed.antt =====
-- The order and the number of the messages that wait for their confirmation.
use mathlib.Core.List.{append_assoc, append-nil}
use agora_etl_plugins.Common.{
  ◌<◌, ◌≡◌, refl, sym, ap, subst, ◌∙◌, Bool, true, false, Option, none, some, List, [], ◌∷◌, ◌++◌,
  map, if◌then◌else◌, leb, length, length-append, length-drop, take, drop, arith, if-cases,
}
use agora_etl_plugins.Kafka.Poison.{Signal, returned, raised}
use agora_etl_plugins.Kafka.Sink.{
  Sink, Calls, and_then, confirm, settled, await_first, await_oldest_ack, after_send, send_message,
  enqueue_send, send_all, enqueue_all, serialize_all, send_values, write_batch_unwrapped,
}

module _ {T V M D E S : Type 0} (c : Calls T V M D E S) where
  abbrev pub messages : List (M × D) → List M
  messages pending = map (λ x. x.0) pending

  messages-append : (xs ys : List (M × D)) → messages (xs ++ ys) ≡ messages xs ++ messages ys
  messages-append [] ys = refl
  messages-append (x ∷ xs) ys = ap (λ l. x.0 ∷ l) (messages-append xs ys)

  -- The messages that were sent before, and do not fail, in their order.
  abbrev pub sent : Sink M D → List M
  sent k = k.confirmed ++ messages k.pending_acks

  abbrev IsBelow : Sink M D → Type 0
  IsBelow k = length k.pending_acks < k.max_pending_acks

  -- What became of messages that were to be sent: fewer than the bound wait, however the call ended,
  -- if that was so before; and where it returned, the messages follow those that were sent before.
  unfoldable pub IsSent : List M → Sink M D → Sink M D × S × Signal → Type 0
  IsSent ms k (k', s', signal) =
      (k'.max_pending_acks ≡ k.max_pending_acks)
      × (length k.pending_acks < k.max_pending_acks → length k'.pending_acks < k'.max_pending_acks)
      × (signal ≡ returned
          → k'.confirmed ++ messages k'.pending_acks
            ≡ (k.confirmed ++ messages k.pending_acks) ++ ms)

  and_then-IsSent :
      (ms ns : List M) (k : Sink M D) (x : Sink M D × S × Signal)
      (next : Sink M D → S → Sink M D × S × Signal)
      → IsSent ms k x
      → ((k' : Sink M D) (s' : S) → IsSent ns k' (next k' s'))
      → IsSent (ms ++ ns) k (and_then c x next)
  unfolding IsSent and_then
  and_then-IsSent ms ns k (k', s', raised) next h go = (h.0, h.1, λ e. cc)
  and_then-IsSent ms ns k (k', s', returned) next h go =
      let (same, below, all) = go k' s' in
      (
        same ∙ h.0,
        λ small. below (h.1 small),
        λ e. all e ∙ ap (λ l. l ++ ns) (h.2 refl) ∙ append_assoc (sent k) ms ns,
      )

  -- The oldest delivery is taken off, and its message is confirmed where the call returns.
  unfoldable pub IsAwaited : List (M × D) → Sink M D → Sink M D × S × Signal → Type 0
  IsAwaited l k (k', s', signal) =
      (k'.max_pending_acks ≡ k.max_pending_acks)
      × (k'.pending_acks ≡ drop 1 l)
      × (signal ≡ returned → k'.confirmed ≡ k.confirmed ++ messages (take 1 l))

  settled-IsAwaited :
      (m : M) (d : D) (rest : List (M × D)) (k : Sink M D) (x : S × Bool)
      → IsAwaited ((m, d) ∷ rest) k (settled c m (record k { pending_acks = rest }) x)
  unfolding settled IsAwaited
  settled-IsAwaited m d rest k (s, true) = (refl, refl, λ e. refl)
  settled-IsAwaited m d rest k (s, false) = (refl, refl, λ e. cc)

  pub await_first-IsAwaited :
      (l : List (M × D)) (k : Sink M D) (s : S)
      → k.pending_acks ≡ l
      → IsAwaited l k (await_first c l k s)
  unfolding await_first IsAwaited
  await_first-IsAwaited [] k s e = (refl, e, λ r. sym (append-nil k.confirmed))
  await_first-IsAwaited ((m, d) ∷ rest) k s e = settled-IsAwaited m d rest k (confirm c (m, d) s)

  messages-split : (l : List (M × D)) → messages (take 1 l) ++ messages (drop 1 l) ≡ messages l
  messages-split [] = refl
  messages-split (x ∷ l) = refl

  -- With the delivery of one more message, where the bound is reached.
  awaited-IsSent :
      (m : M) (d : D) (k : Sink M D) (x : Sink M D × S × Signal)
      → IsAwaited (k.pending_acks ++ ((m, d) ∷ [])) k x
      → IsSent (m ∷ []) k x
  unfolding IsAwaited IsSent
  awaited-IsSent m d k (k', s', signal) h =
      let l = k.pending_acks ++ ((m, d) ∷ []) in
      (
        h.0,
        λ small. omega (
          arith,
          h.0,
          ap length h.1,
          length-drop 1 l,
          length-append k.pending_acks ((m, d) ∷ []),
          small,
        ),
        λ e.
            ap (λ p. k'.confirmed ++ messages p) h.1
            ∙ ap (λ l'. l' ++ messages (drop 1 l)) (h.2 e)
            ∙ append_assoc k.confirmed (messages (take 1 l)) (messages (drop 1 l))
            ∙ ap (λ l'. k.confirmed ++ l')
                (messages-split l ∙ messages-append k.pending_acks ((m, d) ∷ []))
            ∙ sym (append_assoc k.confirmed (messages k.pending_acks) (m ∷ [])),
      )

  stopped : (ms : List M) (k : Sink M D) (s : S) → IsSent ms k (k, s, raised)
  unfolding IsSent
  stopped ms k s = (refl, λ small. small, λ e. cc)

  after_send-IsSent :
      (m : M) (k : Sink M D) (x : S × Option D) → IsSent (m ∷ []) k (after_send c m k x)
  unfolding after_send await_oldest_ack IsAwaited IsSent
  after_send-IsSent m k (s, none) = stopped (m ∷ []) k s
  after_send-IsSent m k (s, some d) =
      let l = k.pending_acks ++ ((m, d) ∷ []) in
      if-cases (IsSent (m ∷ []) k) (leb k.max_pending_acks (length l))
        (λ full.
          awaited-IsSent m d k (await_first c l (record k { pending_acks = l }) s)
            (await_first-IsAwaited l (record k { pending_acks = l }) s refl))
        (λ room. (
          refl,
          λ small. ground (arith, room),
          λ e.
              ap (λ l'. k.confirmed ++ l') (messages-append k.pending_acks ((m, d) ∷ []))
              ∙ sym (append_assoc k.confirmed (messages k.pending_acks) (m ∷ [])),
        ))

  -- The messages that could be made of their records.
  abbrev pub made : List (Option M) → List M
  made [] = []
  made (none ∷ ms) = made ms
  made (some m ∷ ms) = m ∷ made ms

  send_all-IsSent :
      (ms : List (Option M)) (k : Sink M D) (s : S) → IsSent (made ms) k (send_all c ms k s)
  unfolding send_all send_message and_then IsSent
  send_all-IsSent [] k s = (refl, λ small. small, λ e. sym (append-nil (sent k)))
  send_all-IsSent (none ∷ ms) k s = stopped (made ms) k s
  send_all-IsSent (some m ∷ ms) k s =
      and_then-IsSent (m ∷ []) (made ms) k (after_send c m k (c.send_with_retry m s))
        (send_all c ms) (after_send-IsSent m k (c.send_with_retry m s)) (send_all-IsSent ms)

  made_one : Option M → List M
  made_one none = []
  made_one (some m) = m ∷ []

  made-cons : (o : Option M) (ms : List (Option M)) → made_one o ++ made ms ≡ made (o ∷ ms)
  unfolding made_one
  made-cons none ms = refl
  made-cons (some m) ms = refl

  send_message-IsSent :
      (o : Option M) (k : Sink M D) (s : S) → IsSent (made_one o) k (send_message c o k s)
  unfolding send_message made_one
  send_message-IsSent none k s = stopped [] k s
  send_message-IsSent (some m) k s = after_send-IsSent m k (c.send_with_retry m s)

  enqueue_all-IsSent :
      (records : List T) (k : Sink M D) (s : S)
      → IsSent (made (map c.publish_message_for records)) k (enqueue_all c records k s)
  unfolding enqueue_all enqueue_send IsSent
  enqueue_all-IsSent [] k s = (refl, λ small. small, λ e. sym (append-nil (sent k)))
  enqueue_all-IsSent (r ∷ records) k s =
      let o = c.publish_message_for r in
      let rest = map c.publish_message_for records in
      subst (λ ms. IsSent ms k (enqueue_all c (r ∷ records) k s)) (made-cons o rest)
        (and_then-IsSent (made_one o) (made rest) k (enqueue_send c r k s) (enqueue_all c records)
          (if-cases (IsSent (made_one o) k) k.opened (λ up. send_message-IsSent o k s)
            (λ down. stopped (made_one o) k s))
          (enqueue_all-IsSent records))

  abbrev or_nil : Option (List (Option M)) → List (Option M)
  or_nil none = []
  or_nil (some ms) = ms

  -- The messages of a batch.
  abbrev pub batch : List T → List M
  batch records = made (
      if c.has_message_fn
      then map c.publish_message_for records
      else or_nil (serialize_all c records))

  send_values-IsSent :
      (o : Option (List (Option M))) (k : Sink M D) (s : S)
      → IsSent (made (or_nil o)) k (send_values c o k s)
  unfolding send_values
  send_values-IsSent none k s = stopped [] k s
  send_values-IsSent (some ms) k s = send_all-IsSent ms k s

  batch-if :
      (b : Bool) (records : List T) (k : Sink M D) (s : S)
      → IsSent
          (made (if b then map c.publish_message_for records else or_nil (serialize_all c records)))
          k
          (if b then enqueue_all c records k s else send_values c (serialize_all c records) k s)
  batch-if true records k s = enqueue_all-IsSent records k s
  batch-if false records k s = send_values-IsSent (serialize_all c records) k s

  -- However the write of a batch ends, fewer messages wait for their confirmation than the bound, if
  -- that was so before. Where it returns, the messages of the batch follow those that were sent
  -- before, in order, and each of them is confirmed or waits.
  pub write_batch_unwrapped-IsSent :
      (records : List T) (k : Sink M D) (s : S)
      → IsSent (batch records) k (write_batch_unwrapped c records k s)
  unfolding write_batch_unwrapped
  write_batch_unwrapped-IsSent records k s = batch-if c.has_message_fn records k s
