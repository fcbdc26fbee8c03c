-- ===== src/RedisStream/Acks/Kept.antt =====
-- No acknowledgement is lost or moved, also where the answer of a request is, and the loop that
-- reconnects ends.
use mathlib.Core.List.{append-nil, append_assoc}
use agora_etl_plugins.Common.{
  ℕ, zero, suc, ◌+◌, ◌<◌, ◌≤◌, ◌≡◌, refl, sym, ap, ◌∙◌, Bool, true, false, not, ◌||◌, Option, none,
  some, List, [], ◌++◌, length, arith, Bool-cases, inl, inr, if-cases,
}
use agora_etl_plugins.Common.Sets.{is_nil, is_nil→≡}
use agora_etl_plugins.Kafka.Poison.{Signal, returned, raised}
use agora_etl_plugins.RedisStream.Acks.{
  Acks, remember_error, with_pending, acked, reconnected, after_connect, reconnect_loop,
  reconnect_client, after_retry, retry, map_option, recover, after_xack, flush_pending_acks,
}

-- Some ids, again and again.
abbrev pub copies : {A : Type 0} → ℕ → List A → List A
copies zero ids = []
copies (suc n) ids = ids ++ copies n ids

copies-add :
    {A : Type 0} (n m : ℕ) (ids : List A) → copies n ids ++ copies m ids ≡ copies (n + m) ids
copies-add zero m ids = let same : m ≡ 0 + m = omega arith in ap (λ k. copies k ids) same
copies-add (suc n) m ids =
    append_assoc ids (copies n ids) (copies m ids)
    ∙ ap (λ l. ids ++ l) (copies-add n m ids)
    ∙ (let later : suc (n + m) ≡ suc n + m = omega arith in ap (λ k. copies k ids) later)

-- The ids that the server has confirmed, call by call: those of a call that returned, and of one that
-- raised either none or, where only its answer was lost, all of them. A call that the server has not
-- carried out yet, when the client gives up, counts as what it comes to.
abbrev pub Confirms : {A S E : Type 0} → (S → List A) → List A → S → S × Option E → Type 0
Confirms confirmed ids s (s', none) = confirmed s' ≡ confirmed s ++ ids
Confirms confirmed ids s (s', some e) =
    (n : ℕ) × (n ≤ 1) × (confirmed s' ≡ confirmed s ++ copies n ids)

module _ {MessageId E S : Type 0} (xack : List MessageId → S → S × Option E)
    (connects : S → S × Option E) (is_retryable : E → Bool) (should_retry : E → ℕ → Bool)
    (max_attempts : ℕ)
    (policy_law : (e : E) (attempt : ℕ) → max_attempts ≤ attempt → should_retry e attempt ≡ false)
    (confirmed : S → List MessageId)
    (connect_law : (s : S) → confirmed (connects s).0 ≡ confirmed s)
    (xack_law : (ids : List MessageId) (s : S) → Confirms confirmed ids s (xack ids s)) where
  -- What a reconnection keeps.
  abbrev IsReconnected : Acks MessageId E → S → Option (Acks MessageId E × S × Option E) → Type 0
  IsReconnected a s none = ⊥
  IsReconnected a s (some (a', s', outcome)) =
      (confirmed s' ≡ confirmed s)
      × (a'.pending_ack_ids ≡ a.pending_ack_ids)
      × (a'.acked_message_count ≡ a.acked_message_count)

  IsReconnected-after :
      (a a0 : Acks MessageId E) (s s0 : S) (r : Option (Acks MessageId E × S × Option E))
      → confirmed s ≡ confirmed s0
      → a.pending_ack_ids ≡ a0.pending_ack_ids
      → a.acked_message_count ≡ a0.acked_message_count
      → IsReconnected a s r
      → IsReconnected a0 s0 r
  IsReconnected-after a a0 s s0 none same ids count h = h
  IsReconnected-after a a0 s s0 (some x) same ids count h = (h.0 ∙ same, h.1 ∙ ids, h.2 ∙ count)

  after_connect-IsReconnected :
      (attempt : ℕ) (a : Acks MessageId E) (s : S) (x : S × Option E)
      (next : Acks MessageId E → S → Option (Acks MessageId E × S × Option E))
      → confirmed x.0 ≡ confirmed s
      → ((e : E)
          → should_retry e attempt ≡ true
          → (a' : Acks MessageId E) (s' : S) → IsReconnected a' s' (next a' s'))
      → IsReconnected a s
          (after_connect xack connects is_retryable should_retry max_attempts attempt a x next)
  unfolding after_connect reconnected
  after_connect-IsReconnected attempt a s (s', none) next same go = (same, refl, refl)
  after_connect-IsReconnected attempt a s (s', some e) next same go =
      elim (Bool-cases (should_retry e attempt)) [
        | inl again ↦ rw again (
            IsReconnected-after (remember_error e a) a s' s _ same refl refl
              (go e again (remember_error e a) s'))
        | inr ended ↦ rw ended (same, refl, refl)
      ]

  reconnect_loop-IsReconnected :
      (n attempt : ℕ) (a : Acks MessageId E) (s : S)
      → max_attempts ≤ attempt + n
      → IsReconnected a s
          (reconnect_loop xack connects is_retryable should_retry max_attempts (suc n) attempt a s)
  unfolding reconnect_loop
  reconnect_loop-IsReconnected zero attempt a s enough =
      after_connect-IsReconnected attempt a s (connects s) _ (connect_law s) (λ e again a' s'.
        let ended = policy_law e attempt (omega (arith, enough)) in
        let impossible : true ≡ false = sym again ∙ ended in cc)
  reconnect_loop-IsReconnected (suc n) attempt a s enough =
      after_connect-IsReconnected attempt a s (connects s) _ (connect_law s) (λ e again a' s'.
        reconnect_loop-IsReconnected n (attempt + 1) a' s' (omega (arith, enough)))

  -- With as many turns as the policy allows the loop ends: with a client, or with an error.
  pub reconnect_client-IsReconnected :
      (a : Acks MessageId E) (s : S)
      → IsReconnected a s
          (reconnect_client xack connects is_retryable should_retry max_attempts a s)
  unfolding reconnect_client
  reconnect_client-IsReconnected a s =
      IsReconnected-after (record a { connected = false }) a s s _ refl refl refl
        (reconnect_loop-IsReconnected max_attempts 1 (record a { connected = false }) s
          (omega arith))

  -- What became of the acknowledgements that were to be sent, in at most `calls` calls that raised.
  -- First come those that were confirmed and counted, then those that wait. Before the confirmed ones
  -- the server may have confirmed all of them for each call that raised. Those that wait after a call
  -- that returns are as `Q` says.
  unfoldable pub IsKept :
      (List MessageId → Type 0)
      → ℕ
      → List MessageId
      → Acks MessageId E
      → S
      → Option (Acks MessageId E × S × Signal)
      → Type 0
  IsKept Q calls ids a s none = ⊥
  IsKept Q calls ids a s (some (a', s', signal)) =
      (went : List MessageId) × (n : ℕ) × (went ++ a'.pending_ack_ids ≡ ids)
      × (n ≤ calls)
      × (confirmed s' ≡ (confirmed s ++ copies n ids) ++ went)
      × (a'.acked_message_count ≡ a.acked_message_count + length went)
      × (signal ≡ returned → Q a'.pending_ack_ids)

  -- The same after as many calls that raised as the server has carried out, which is `m`.
  IsKept-after :
      (Q : List MessageId → Type 0) (calls most m : ℕ) (ids ids0 : List MessageId)
      (a a0 : Acks MessageId E) (s s0 : S) (r : Option (Acks MessageId E × S × Signal))
      → confirmed s ≡ confirmed s0 ++ copies m ids0
      → ids ≡ ids0
      → a.acked_message_count ≡ a0.acked_message_count
      → m + calls ≤ most
      → IsKept Q calls ids a s r
      → IsKept Q most ids0 a0 s0 r
  unfolding IsKept
  IsKept-after Q calls most m ids ids0 a a0 s s0 none same e count few h = h
  IsKept-after Q calls most m ids ids0 a a0 s s0 (some x) same e count few
        (went, n, split, small, law, k, q) =
      (
        went,
        m + n,
        split ∙ e,
        omega (arith, few, small),
        law
            ∙ ap (λ l. (l ++ copies n ids) ++ went) same
            ∙ ap (λ l. ((confirmed s0 ++ copies m ids0) ++ copies n l) ++ went) e
            ∙ ap (λ l. l ++ went)
                (append_assoc (confirmed s0) (copies m ids0) (copies n ids0)
                  ∙ ap (λ l. confirmed s0 ++ l) (copies-add m n ids0)),
        omega (arith, k, count),
        q,
      )

  abbrev IsNone : List MessageId → Type 0
  IsNone ids = ids ≡ []

  unsent :
      (Q : List MessageId → Type 0) (a a0 : Acks MessageId E) (s s0 : S) (signal : Signal)
      → confirmed s ≡ confirmed s0
      → a.acked_message_count ≡ a0.acked_message_count
      → (signal ≡ returned → Q a.pending_ack_ids)
      → IsKept Q 0 a.pending_ack_ids a0 s0 (some (a, s, signal))
  unfolding IsKept
  unsent Q a a0 s s0 signal same count q = (
    [],
    0,
    refl,
    omega arith,
    same ∙ sym (append-nil (confirmed s0 ++ []) ∙ append-nil (confirmed s0)),
    omega (arith, count),
    q,
  )

  all_sent :
      (ids : List MessageId) (a a' : Acks MessageId E) (s s' : S)
      → a'.pending_ack_ids ≡ []
      → a'.acked_message_count ≡ a.acked_message_count + length ids
      → confirmed s' ≡ confirmed s ++ ids
      → IsKept IsNone 0 ids a s (some (a', s', returned))
  unfolding IsKept
  all_sent ids a a' s s' empty count law = (
    ids,
    0,
    ap (λ l. ids ++ l) empty ∙ append-nil ids,
    omega arith,
    law ∙ ap (λ l. l ++ ids) (sym (append-nil (confirmed s))),
    count,
    λ e. empty,
  )

  -- No call of the server in between, or none that it has carried out.
  plain :
      (ids : List MessageId) (s s0 : S)
      → confirmed s ≡ confirmed s0
      → confirmed s ≡ confirmed s0 ++ copies 0 ids
  plain ids s s0 same = same ∙ sym (append-nil (confirmed s0))

  after_retry-IsKept :
      (ids : List MessageId) (a : Acks MessageId E) (s : S) (x : S × Option E)
      → Confirms confirmed ids s x
      → a.pending_ack_ids ≡ []
      → IsKept IsNone 1 ids a s
          (some (after_retry xack connects is_retryable should_retry max_attempts ids a x))
  unfolding after_retry acked
  after_retry-IsKept ids a s (s', none) law empty =
      IsKept-after IsNone 0 1 0 ids ids a a s s _ (plain ids s s refl) refl refl (omega arith)
        (all_sent ids a (acked ids a) s s' empty refl law)
  after_retry-IsKept ids a s (s', some e) (n, few, law) empty =
      let a' = with_pending (ids ++ a.pending_ack_ids) a in
      IsKept-after IsNone 0 1 n a'.pending_ack_ids ids a' a s' s _ law
        (ap (λ l. ids ++ l) empty ∙ append-nil ids) refl (omega (arith, few))
        (unsent IsNone a' a' s' s' raised refl refl (λ e. cc))

  retried-IsKept :
      (ids : List MessageId) (a : Acks MessageId E) (s : S)
      (r : Option (Acks MessageId E × S × Option E))
      → a.pending_ack_ids ≡ ids
      → IsReconnected a s r
      → IsKept IsNone 1 ids a s (
          map_option xack connects is_retryable should_retry max_attempts
            (retry xack connects is_retryable should_retry max_attempts)
            r)
  unfolding retry IsKept
  retried-IsKept ids a s none same h = h
  retried-IsKept ids a s (some (a', s', some e)) same h =
      IsKept-after IsNone 0 1 0 a'.pending_ack_ids ids a' a s' s (some (a', s', raised))
        (plain ids s' s h.0) (h.1 ∙ same) h.2 (omega arith)
        (unsent IsNone a' a' s' s' raised refl refl (λ e. cc))
  retried-IsKept ids a s (some (a', s', none)) same h =
      IsKept-after IsNone 1 1 0 a'.pending_ack_ids ids a' a s' s
        (map_option xack connects is_retryable should_retry max_attempts
          (retry xack connects is_retryable should_retry max_attempts) (some (a', s', none)))
        (plain ids s' s h.0) (h.1 ∙ same) h.2 (omega arith)
        (after_retry-IsKept a'.pending_ack_ids (with_pending [] a') s' (xack a'.pending_ack_ids s')
          (xack_law a'.pending_ack_ids s') refl)

  recover-IsKept :
      (e : E) (ids : List MessageId) (a : Acks MessageId E) (s : S)
      → a.pending_ack_ids ≡ ids
      → IsKept IsNone 1 ids a s (recover xack connects is_retryable should_retry max_attempts e a s)
  unfolding recover
  recover-IsKept e ids a s same =
      if-cases (IsKept IsNone 1 ids a s) (is_retryable e)
        (λ again.
          IsKept-after IsNone 1 1 0 ids ids (remember_error e a) a s s _ (plain ids s s refl) refl
            refl (omega arith)
            (retried-IsKept ids (remember_error e a) s _ same
              (reconnect_client-IsReconnected (remember_error e a) s)))
        (λ ended.
          IsKept-after IsNone 0 1 0 a.pending_ack_ids ids a a s s _ (plain ids s s refl) same refl
            (omega arith) (unsent IsNone a a s s raised refl refl (λ e. cc)))

  after_xack-IsKept :
      (ids : List MessageId) (a : Acks MessageId E) (s : S) (x : S × Option E)
      → Confirms confirmed ids s x
      → a.pending_ack_ids ≡ []
      → IsKept IsNone 2 ids a s
          (after_xack xack connects is_retryable should_retry max_attempts ids a x)
  unfolding after_xack acked
  after_xack-IsKept ids a s (s', none) law empty =
      IsKept-after IsNone 0 2 0 ids ids a a s s _ (plain ids s s refl) refl refl (omega arith)
        (all_sent ids a (acked ids a) s s' empty refl law)
  after_xack-IsKept ids a s (s', some e) (n, few, law) empty =
      let a' = with_pending (ids ++ a.pending_ack_ids) a in
      IsKept-after IsNone 1 2 n a'.pending_ack_ids ids a' a s' s _ law
        (ap (λ l. ids ++ l) empty ∙ append-nil ids) refl (omega (arith, few))
        (recover-IsKept e a'.pending_ack_ids a' s' refl)

  -- After a flush the acknowledgements that waited are those that were confirmed and counted, in
  -- their order, and then those that still wait, which are none where the flush returns. The server
  -- may have confirmed all of them once more for each call that raised, of which there are two at
  -- most. The flush ends, with as many reconnections as the policy allows. This holds where the
  -- source is connected.
  pub flush_pending_acks-IsKept :
      (a : Acks MessageId E) (s : S)
      → a.connected ≡ true
      → IsKept
          (λ ids. ids ≡ [])
          2
          a.pending_ack_ids
          a
          s
          (flush_pending_acks xack connects is_retryable should_retry max_attempts a s)
  unfolding flush_pending_acks
  flush_pending_acks-IsKept a s up =
      let ids = a.pending_ack_ids in
      if-cases (IsKept IsNone 2 ids a s) (not a.connected || is_nil ids)
        (λ e.
          IsKept-after IsNone 0 2 0 ids ids a a s s _ (plain ids s s refl) refl refl (omega arith)
            (unsent IsNone a a s s returned refl refl (λ r. is_nil→≡ ids (ground (arith, up, e)))))
        (λ e.
          IsKept-after IsNone 2 2 0 ids ids (with_pending [] a) a s s _ (plain ids s s refl) refl
            refl (omega arith)
            (after_xack-IsKept ids (with_pending [] a) s (xack ids s) (xack_law ids s) refl))

  abbrev IsBelow : ℕ → List MessageId → Type 0
  IsBelow bound ids = length ids < bound
