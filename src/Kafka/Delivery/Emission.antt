-- ===== src/Kafka/Delivery/Emission.antt =====
-- What one emission does: a record counts once, however often it is acknowledged, and a record
-- that the pipeline did not finish is not committed.
use agora_etl_plugins.Common.{
  ℕ, zero, suc, ◌≡◌, refl, Bool, true, false, List, [], ◌∷◌, none, some, arith, string_eq, nat_eq,
  pair_eq,
}
use agora_etl_plugins.Kafka.Poison.{Signal, returned, raised, Record}
use agora_etl_plugins.Kafka.Delivery.{
  Source, Delivery, Hook, calls_ack, deliver, mark_delivered, commit_if_needed, send_commit, ack,
  call_hook, call_hooks, finish, emit_record, mark_emitted_offset, start_delivery,
  clear_active_delivery,
}

-- `n` acknowledgements
abbrev pub acks : ℕ → List Hook
acks zero = []
acks (suc n) = calls_ack ∷ acks n

module _ (accepts : ℕ → Bool) where
  ack-marks : (d : Delivery) (s : Source) → (ack accepts d s).0.acknowledged ≡ true
  unfolding ack
  ack-marks d s = ground arith

  -- An acknowledgement that follows another one, whatever the first one's commit came to, changes
  -- nothing and returns.
  pub ack-ack :
      (d : Delivery) (s : Source)
      → let (d', s', signal) = ack accepts d s in ack accepts d' s' ≡ (d', s', returned)
  unfolding ack
  ack-ack d s = ground arith

  -- A record that is handled to its end without a hook being called is acknowledged once.
  pub emit_record-eq-deliver :
      (r : Record) (s : Source)
      → emit_record accepts r [] false s
        ≡ deliver accepts r (record (mark_emitted_offset accepts r s) { active = none })
  unfolding emit_record call_hooks finish start_delivery clear_active_delivery ack
  emit_record-eq-deliver r s = ground arith

  -- Delivering does not look at the active delivery.
  deliver-clear :
      (r : Record) (s : Source)
      → deliver accepts r (clear_active_delivery accepts s)
        ≡ (let (s', signal) = deliver accepts r s in (clear_active_delivery accepts s', signal))
  unfolding deliver mark_delivered commit_if_needed send_commit clear_active_delivery
  deliver-clear r s = ground arith

  call_acks :
      (n : ℕ) (d : Delivery) (s : Source)
      → d.acknowledged ≡ true
      → call_hooks accepts (acks n) d s ≡ (d, s, returned)
  unfolding call_hooks call_hook ack
  call_acks zero d s h = refl
  call_acks (suc n) d s h = ground (arith, call_acks n d s h)

  -- However often the pipeline acknowledges a record while it is out, the source ends in the
  -- state, and with the outcome, of a record that it never acknowledged itself.
  pub emit_record-acks :
      (n : ℕ) (r : Record) (s : Source)
      → emit_record accepts r (acks n) false s ≡ emit_record accepts r [] false s
  unfolding emit_record call_hooks call_hook ack finish start_delivery
  emit_record-acks zero r s = refl
  emit_record-acks (suc n) r s =
      let s' = record (mark_emitted_offset accepts r s) { active = some r } in
      let d' : Delivery = record { place = r; acknowledged = true } in
      let (s'', signal) = deliver accepts r s' in
      rw (deliver-clear r s') (after signal s'' d' (call_acks n d' s'' refl) refl)
    where
      after :
          (signal : Signal) (s'' : Source) (d' : Delivery)
          → call_hooks accepts (acks n) d' s'' ≡ (d', s'', returned)
          → d'.acknowledged ≡ true
          → finish accepts false (elim signal [
            | returned ↦ call_hooks accepts (acks n) d' s''
            | raised ↦ (d', s'', raised)
          ])
            ≡ (clear_active_delivery accepts s'', signal)
      after returned s'' d' e h = ground arith
      after raised s'' d' e h = refl
