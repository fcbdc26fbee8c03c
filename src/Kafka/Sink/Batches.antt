-- ===== src/Kafka/Sink/Batches.antt =====
-- A batch in a transaction of its own.
use mathlib.Core.List.{append_assoc, append-nil}
use agora_etl_plugins.Common.{
  ◌≡◌, refl, sym, ap, subst, ◌∙◌, Bool, true, false, not, ◌&&◌, Option, none, some, List, [], ◌∷◌,
  ◌++◌, if-cases, take, drop, arith,
}
use agora_etl_plugins.Kafka.Poison.{Signal, returned, raised}
use agora_etl_plugins.Kafka.Sink.{
  Sink, Calls, and_then, await_oldest_ack, drain_each, drain_pending_acks, write_batch_unwrapped,
  call_method, begin_transaction, commit_with, commit_transaction, raise_after, leave, transaction,
  write_batch,
}
use agora_etl_plugins.Kafka.Sink.Confirmed.{
  messages, batch, IsSent, IsAwaited, await_first-IsAwaited, write_batch_unwrapped-IsSent,
}

module _ {T V M D E S : Type 0} (c : Calls T V M D E S) where
  and_then-returned :
      (x : Sink M D × S × Signal) (next : Sink M D → S → Sink M D × S × Signal)
      → (and_then c x next).2 ≡ returned
      → (x.2 ≡ returned) × (and_then c x next ≡ next x.0 x.1)
  unfolding and_then
  and_then-returned (k, s, returned) next h = (refl, refl)
  and_then-returned (k, s, raised) next h = cc

  -- Nothing waits, and what waited is confirmed.
  IsDrained : List M → Sink M D → Type 0
  IsDrained confirmed k = (k.pending_acks ≡ []) × (k.confirmed ≡ confirmed)

  drain_each-IsDrained :
      (l : List (M × D)) (k : Sink M D) (s : S)
      → k.pending_acks ≡ l
      → (drain_each c l k s).2 ≡ returned
      → IsDrained (k.confirmed ++ messages c l) (drain_each c l k s).0
  unfolding drain_each IsDrained await_oldest_ack IsAwaited
  drain_each-IsDrained [] k s e h = (e, sym (append-nil k.confirmed))
  drain_each-IsDrained (first ∷ rest) k s e h =
      let x = await_oldest_ack c k s in
      let (ended, same) = and_then-returned x (drain_each c rest) h in
      let (max, waiting, done) = await_first-IsAwaited c k.pending_acks k s refl in
      let (none_left, all) =
        drain_each-IsDrained rest x.0 x.1 (waiting ∙ ap (drop 1) e)
          (sym (ap (λ (y : Sink M D × S × Signal). y.2) same) ∙ h) in
      (
        ap (λ (y : Sink M D × S × Signal). y.0.pending_acks) same ∙ none_left,
        ap (λ (y : Sink M D × S × Signal). y.0.confirmed) same
            ∙ all
            ∙ ap (λ l. l ++ messages c rest)
                (done ended ∙ ap (λ l. k.confirmed ++ messages c (take 1 l)) e)
            ∙ append_assoc k.confirmed (first.0 ∷ []) (messages c rest),
      )

  -- The last call of the producer was that of its method, and it returned.
  abbrev Called : Option (S → S × Bool) → S → Type 0
  Called o s =
      (method : S → S × Bool) × (o ≡ some method) × (before : S) × (method before ≡ (s, true))

  -- Nothing waits, the transaction is closed, the messages are confirmed, and the last call of the
  -- producer was `commit_transaction`.
  unfoldable pub IsCommitted : List M → Sink M D × S × Signal → Type 0
  IsCommitted confirmed (k, s, signal) =
      (k.pending_acks ≡ [])
      × (k.in_transaction ≡ false)
      × (k.confirmed ≡ confirmed)
      × Called c.commit_method s

  call_method-returned :
      (method : S → S × Bool) (b : Bool) (k : Sink M D) (s : S)
      → (call_method c (some method) b k s).2 ≡ returned
      → ((call_method c (some method) b k s).0 ≡ record k { in_transaction = b })
        × (method s ≡ ((call_method c (some method) b k s).1, true))
  unfolding call_method
  call_method-returned method b k s =
      let Ends = λ (x : Sink M D × S × Signal).
        x.2 ≡ returned → (x.0 ≡ record k { in_transaction = b }) × (method s ≡ (x.1, true)) in
      if-cases Ends (method s).1 (λ fine h. (refl, ap (λ b. ((method s).0, b)) fine))
        (λ failed h. cc)

  commit_with-IsCommitted :
      (o : Option (S → S × Bool)) (k : Sink M D) (s : S)
      → c.commit_method ≡ o
      → (commit_with c o k s).2 ≡ returned
      → IsCommitted (k.confirmed ++ messages c k.pending_acks) (commit_with c o k s)
  unfolding commit_with drain_pending_acks IsDrained IsCommitted
  commit_with-IsCommitted none k s is_method h = cc
  commit_with-IsCommitted (some commit) k s is_method h =
      let x = drain_pending_acks c k s in
      let (ended, same) = and_then-returned x (call_method c (some commit) false) h in
      let (empty, all) = drain_each-IsDrained k.pending_acks k s refl ended in
      let (closed, called) =
        call_method-returned commit false x.0 x.1
          (sym (ap (λ (y : Sink M D × S × Signal). y.2) same) ∙ h) in
      let last = ap (λ (y : Sink M D × S × Signal). y.0) same ∙ closed in
      (
        ap (λ (k : Sink M D). k.pending_acks) last ∙ empty,
        ap (λ (k : Sink M D). k.in_transaction) last,
        ap (λ (k : Sink M D). k.confirmed) last ∙ all,
        (
          commit,
          is_method,
          x.1,
          called ∙ ap (λ (y : Sink M D × S × Signal). (y.1, true)) (sym same),
        ),
      )

  leave-IsCommitted :
      (x : Sink M D × S × Signal)
      → (leave c x).2 ≡ returned
      → (x.2 ≡ returned) × IsCommitted (x.0.confirmed ++ messages c x.0.pending_acks) (leave c x)
  unfolding leave commit_transaction raise_after
  leave-IsCommitted (k, s, raised) h = cc
  leave-IsCommitted (k, s, returned) h = (
    refl,
    if-cases
        (λ (x : Sink M D × S × Signal).
          x.2 ≡ returned → IsCommitted (k.confirmed ++ messages c k.pending_acks) x)
        k.opened (λ up. commit_with-IsCommitted c.commit_method k s refl) (λ down h. cc) h,
  )

  IsSent-returned :
      (ms : List M) (k : Sink M D) (x : Sink M D × S × Signal)
      → IsSent c ms k x
      → x.2 ≡ returned
      → x.0.confirmed ++ messages c x.0.pending_acks
        ≡ (k.confirmed ++ messages c k.pending_acks) ++ ms
  unfolding IsSent
  IsSent-returned ms k x h = h.2

  -- The method that begins a transaction was called, and it returned.
  abbrev Begins : Option (S → S × Bool) → S → S → Type 0
  Begins o s s1 = (method : S → S × Bool) × (o ≡ some method) × (method s ≡ (s1, true))

  IsBegun : Sink M D → S → Sink M D × S × Signal → Type 0
  IsBegun k s (k1, s1, signal) =
      (k1 ≡ record k { in_transaction = true }) × Begins c.begin_method s s1

  begun :
      (o : Option (S → S × Bool)) (k : Sink M D) (s : S)
      → c.begin_method ≡ o
      → (call_method c o true k s).2 ≡ returned
      → IsBegun k s (call_method c o true k s)
  unfolding call_method IsBegun
  begun none k s is_method h = cc
  begun (some method) k s is_method h =
      let (set, called) = call_method-returned method true k s h in
      (set, (method, is_method, called))

  begin-returned :
      (k : Sink M D) (s : S)
      → (begin_transaction c k s).2 ≡ returned
      → IsBegun k s (begin_transaction c k s)
  unfolding begin_transaction
  begin-returned k s =
      if-cases (λ (x : Sink M D × S × Signal). x.2 ≡ returned → IsBegun k s x) k.opened
        (λ up h. begun c.begin_method k s refl h) (λ down h. cc)

  -- What the write of a batch in a transaction of its own came to: the transaction was begun, the
  -- records were written in it, and it was committed.
  unfoldable pub IsTransaction : List T → Sink M D → S → Sink M D × S × Signal → Type 0
  IsTransaction records k s x =
      (s1 : S) × Begins c.begin_method s s1
      × ((write_batch_unwrapped c records (record k { in_transaction = true }) s1).2 ≡ returned)
      × IsCommitted ((k.confirmed ++ messages c k.pending_acks) ++ batch c records) x

  transaction-IsTransaction :
      (records : List T) (k : Sink M D) (s : S)
      → (transaction c (write_batch_unwrapped c records) k s).2 ≡ returned
      → IsTransaction records k s (transaction c (write_batch_unwrapped c records) k s)
  unfolding transaction IsBegun IsTransaction
  transaction-IsTransaction records k s h =
      let (started, same) =
        and_then-returned (begin_transaction c k s)
          (λ k s. leave c (write_batch_unwrapped c records k s)) h in
      let (first, called) = begin-returned k s started in
      let k1 = (begin_transaction c k s).0 in
      let s1 = (begin_transaction c k s).1 in
      let body = write_batch_unwrapped c records k1 s1 in
      let (written, committed) =
        leave-IsCommitted body (sym (ap (λ (y : Sink M D × S × Signal). y.2) same) ∙ h) in
      (
        s1,
        called,
        ap (λ (q : Sink M D). (write_batch_unwrapped c records q s1).2) (sym first) ∙ written,
        subst (IsCommitted ((k.confirmed ++ messages c k.pending_acks) ++ batch c records))
            (sym same)
            (subst (λ l. IsCommitted l (leave c body))
              (IsSent-returned (batch c records) k1 body
                  (write_batch_unwrapped-IsSent c records k1 s1) written
                ∙ ap
                    (λ (q : Sink M D).
                      (q.confirmed ++ messages c q.pending_acks) ++ batch c records)
                    first)
              committed),
      )

  -- Where each batch has a transaction of its own and none is open, the write of a batch that
  -- returns began a transaction, wrote the records in it, and committed it: the last call of the
  -- producer was its `commit_transaction`, which returned; nothing waits, the transaction is closed,
  -- and the messages that waited before and those of the batch are confirmed, in order.
  pub write_batch-IsCommitted :
      (records : List T) (k : Sink M D) (s : S)
      → k.transaction_per_batch ≡ true
      → k.in_transaction ≡ false
      → (write_batch c records k s).2 ≡ returned
      → IsTransaction records k s (write_batch c records k s)
  unfolding write_batch
  write_batch-IsCommitted records k s own closed =
      let Ends = λ (x : Sink M D × S × Signal). x.2 ≡ returned → IsTransaction records k s x in
      if-cases Ends (not k.opened) (λ down h. cc)
        (λ up.
          if-cases Ends (k.transaction_per_batch && not k.in_transaction)
            (λ e h. transaction-IsTransaction records k s h)
            (λ e. let impossible : true ≡ false = ground (arith, own, closed, e) in λ h. cc))
