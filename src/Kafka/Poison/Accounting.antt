-- ===== src/Kafka/Poison/Accounting.antt =====
-- No poison record is lost from the books.
use mathlib.Core.List.{append_assoc, append-nil}
use agora_etl_plugins.Common.{
  ℕ, ◌+◌, ◌≡◌, ◌⊎◌, refl, sym, true, List, [], ◌∷◌, ◌++◌, some, arith, length, if◌then◌else◌,
}
use agora_etl_plugins.Kafka.Poison.{
  Sink, Record, Dlq, builds_all, write_one, raised, PoisonState, returned, dlq_and_fail_closed,
  batch_sink, single_sink, uses_dlq, write_each, write_to, after_write, capture_with, capture_batch,
  capture_one, capture_record, handle_write_error, observe_records, count_policy, Classification,
}

-- The books and the policy, which a write leaves as they are.
pub record SameBooks (s s' : PoisonState) : Type 0 where
  pub policy : s'.policy ≡ s.policy
  pub write_count : s'.dlq_write_count ≡ s.dlq_write_count
  pub failure_count : s'.dlq_write_failure_count ≡ s.dlq_write_failure_count

module _ (dlq : Dlq) where
  -- If every write returns, the sink has all records, in order.
  write_each-written :
      (rs : List Record) (s : PoisonState)
      → (write_each dlq rs s).1 ≡ returned
      → (write_each dlq rs s).0.written ≡ s.written ++ rs
  unfolding write_each
  write_each-written [] s h = sym (append-nil s.written)
  write_each-written (r ∷ rs) s h =
      let s' = record s { calls = s.calls + 1; written = s.written ++ (r ∷ []) } in
      ground (arith, write_each-written rs s', append_assoc s.written (r ∷ []) rs)

  write_each-SameBooks : (rs : List Record) (s : PoisonState) → SameBooks s (write_each dlq rs s).0
  unfolding write_each
  write_each-SameBooks [] s = record { policy = refl; write_count = refl; failure_count = refl }
  write_each-SameBooks (r ∷ rs) s =
      let s' = record s { calls = s.calls + 1; written = s.written ++ (r ∷ []) } in
      ground (arith, write_each-SameBooks rs s')

  write_to-written :
      (sink : Sink) (rs : List Record) (s : PoisonState)
      → (write_to dlq sink rs s).1 ≡ returned
      → (write_to dlq sink rs s).0.written ≡ s.written ++ rs
  unfolding write_to
  write_to-written single_sink rs s h = write_each-written rs s h
  write_to-written batch_sink rs s h = ground arith

  write_to-SameBooks :
      (sink : Sink) (rs : List Record) (s : PoisonState) → SameBooks s (write_to dlq sink rs s).0
  unfolding write_to
  write_to-SameBooks single_sink rs s = write_each-SameBooks rs s
  write_to-SameBooks batch_sink rs s = ground arith

  -- Under a policy that uses the sink, each record of a batch of poison records is counted once, as
  -- written or as failed, and the call returns unless the policy is to close on a failure; but where
  -- a record cannot be built for the sink, the call raises and counts none of them.
  pub capture_batch_accounts :
      (rs : List Record) (s : PoisonState) (sink : Sink)
      → uses_dlq s.policy ≡ true
      → s.sink ≡ some sink
      → let (s', signal) = capture_batch dlq rs s in
        (s'.dlq_write_count + s'.dlq_write_failure_count
          ≡ s.dlq_write_count
            + s.dlq_write_failure_count
            + (if builds_all dlq rs then length rs else 0))
        × ((signal ≡ (if builds_all dlq rs then returned else raised))
            ⊎ (s.policy ≡ dlq_and_fail_closed))
  unfolding capture_batch capture_with after_write handle_write_error
  capture_batch_accounts rs s sink h e = ground (arith, write_to-SameBooks sink rs s)

  -- Under the policy that closes on a failed write, a call that returns has left every record of
  -- the batch with the sink, in order.
  pub capture_batch-written :
      (rs : List Record) (s : PoisonState) (sink : Sink)
      → s.policy ≡ dlq_and_fail_closed
      → s.sink ≡ some sink
      → (capture_batch dlq rs s).1 ≡ returned
      → (capture_batch dlq rs s).0.written ≡ s.written ++ rs
  unfolding capture_batch capture_with after_write handle_write_error
  capture_batch-written rs s sink h e r =
      ground (arith, write_to-SameBooks sink rs s, write_to-written sink rs s)

  -- The policy is the one the source was made with.
  pub capture_batch-policy :
      (rs : List Record) (s : PoisonState) → (capture_batch dlq rs s).0.policy ≡ s.policy
  unfolding capture_batch capture_with after_write handle_write_error
  capture_batch-policy rs s =
      ground (arith, write_to-SameBooks batch_sink rs s, write_to-SameBooks single_sink rs s)

  pub capture_record-policy :
      (r : Record) (s : PoisonState) → (capture_record dlq r s).0.policy ≡ s.policy
  unfolding capture_record capture_one after_write handle_write_error write_one
  capture_record-policy r s = ground arith

pub observe_records-policy :
    (class : Classification) (n : ℕ) (s : PoisonState)
    → (observe_records class n s).policy ≡ s.policy
unfolding observe_records count_policy
observe_records-policy class n s = ground arith
