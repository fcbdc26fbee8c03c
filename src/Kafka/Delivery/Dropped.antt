-- ===== src/Kafka/Delivery/Dropped.antt =====
-- Records that cannot be deserialized, and partitions that are taken away, keep the invariant.
use agora_etl_plugins.Common.Dict.{All-put, All-remove}
use agora_etl_plugins.Common.{
  ℕ, ◌+◌, ◌≡◌, ◌⊎◌, inl, inr, refl, ◌∙◌, Bool, true, false, not, ◌&&◌, List, [], ◌∷◌, All, In,
  arith, length, Bool-cases, string_eq, nat_eq, pair_eq,
}
use agora_etl_plugins.Kafka.Cursor.{
  TopicPartition, Offsets, CursorState, is_empty, remember_processed_offset,
  remember_committable_offset, increment_pending_commit_count, clear_pending_commit_count,
  drop_revoked, drop_keys,
}
use agora_etl_plugins.Kafka.Poison.{
  Dlq, Classification, Signal, returned, raised, Record, should_continue, capture_batch,
  capture_record, observe_records,
}
use agora_etl_plugins.Kafka.Poison.Accounting.{
  capture_batch-policy, capture_record-policy, observe_records-policy,
}
use agora_etl_plugins.Kafka.Delivery.{Source, ◌▸◌, on_cursor, commit_if_needed, send_commit}
use agora_etl_plugins.Kafka.Delivery.Poisoned.{
  remember_all, continue_after_batch_failure, after_single, after_batch,
  handle_single_deserialize_error, handle_batch_deserialize_error, handle_partitions_revoked,
}
use agora_etl_plugins.Kafka.Delivery.Safety.{Inv, commit-Inv, deliver-Inv, not-empty-put}

module _ (accepts : ℕ → Bool) (dlq : Dlq) where
  remember_all-covered :
      (released rs : List Record) (c : CursorState)
      → All (λ e. In e released) rs
      → All (λ e. In e released) c.committable_offsets
      → All (λ e. In e released) (remember_all rs c).committable_offsets
  unfolding remember_all remember_processed_offset remember_committable_offset
  remember_all-covered released [] c new old = old
  remember_all-covered released ((tp, o) ∷ rs) c new old =
      remember_all-covered released rs
        (remember_committable_offset tp o (remember_processed_offset tp o c)) new.1
        (All-put (λ e. In e released) tp o c.committable_offsets new.0 old)

  -- Once an offset is there, one stays.
  remember_all-full :
      (rs : List Record) (c : CursorState)
      → is_empty c.committable_offsets ≡ false
      → is_empty (remember_all rs c).committable_offsets ≡ false
  unfolding remember_all remember_processed_offset remember_committable_offset
  remember_all-full [] c full = full
  remember_all-full ((tp, o) ∷ rs) c full =
      remember_all-full rs (remember_committable_offset tp o (remember_processed_offset tp o c))
        (not-empty-put tp o c.committable_offsets)

  remember_all-full_or_nil :
      (rs : List Record) (c : CursorState)
      → (rs ≡ []) ⊎ (is_empty (remember_all rs c).committable_offsets ≡ false)
  unfolding remember_all remember_processed_offset remember_committable_offset
  remember_all-full_or_nil [] c = inl refl
  remember_all-full_or_nil ((tp, o) ∷ rs) c = inr (
      remember_all-full rs (remember_committable_offset tp o (remember_processed_offset tp o c))
        (not-empty-put tp o c.committable_offsets))

  remember_all-pending :
      (rs : List Record) (c : CursorState)
      → (remember_all rs c).pending_commit_count ≡ c.pending_commit_count
  unfolding remember_all remember_processed_offset remember_committable_offset
  remember_all-pending [] c = refl
  remember_all-pending ((tp, o) ∷ rs) c =
      remember_all-pending rs (remember_committable_offset tp o (remember_processed_offset tp o c))

  -- The source between the two halves of `_continue_after_batch_failure`.
  dropped-Inv :
      (released rs : List Record) (s s' : Source)
      → All (λ e. In e released) rs
      → Inv released s
      → s'.cursor.committable_offsets ≡ (remember_all rs s.cursor).committable_offsets
      → (s'.cursor.pending_commit_count ≡ s.cursor.pending_commit_count)
        ⊎ (s'.cursor.pending_commit_count ≡ s.cursor.pending_commit_count + length rs)
      → (s'.connected ≡ s.connected)
        × (s'.enable_auto_commit ≡ s.enable_auto_commit)
        × (s'.commits ≡ s.commits)
      → Inv released s'
  unfolding remember_all
  dropped-Inv released [] s s' known v e p same = ground (arith, v)
  dropped-Inv released (r ∷ rs) s s' known v e p same = record {
    covered = rw e (remember_all-covered released (r ∷ rs) s.cursor known v.covered);
    scoped = ground (arith, remember_all-full_or_nil (r ∷ rs) s.cursor);
    justified = rw same.2 v.justified;
  }

  continue-Inv :
      (released rs : List Record) (s : Source)
      → All (λ e. In e released) rs
      → Inv released s
      → Inv released (continue_after_batch_failure accepts dlq rs s).0
  unfolding continue_after_batch_failure increment_pending_commit_count
  continue-Inv released rs s known v =
      let s' = record s {
        cursor = remember_all rs s.cursor;
        record_drop_count = s.record_drop_count + length rs;
        progress = s.progress + 1;
      } in
      let c'' = increment_pending_commit_count (length rs) (remember_all rs s.cursor) in
      let s'' = record s' { cursor = c'' } in
      let pending = remember_all-pending rs s.cursor in
      ground (
        arith,
        dropped-Inv released rs s s' known v refl (inl pending) (refl, refl, refl),
        commit-Inv accepts released false s'' (
            dropped-Inv released rs s s'' known v (ground arith) (inr (ground (arith, pending)))
              (refl, refl, refl)),
      )

  -- The counters and the poison books do not matter.
  same-Inv :
      (released : List Record) (s s' : Source)
      → s'.cursor ≡ s.cursor
      → (s'.connected ≡ s.connected)
        × (s'.enable_auto_commit ≡ s.enable_auto_commit)
        × (s'.commits ≡ s.commits)
      → Inv released s
      → Inv released s'
  same-Inv released s s' c same v = ground (arith, v)

  ▸-Inv :
      (released : List Record) (x : Source × Signal) (k : Source → Source × Signal)
      → Inv released x.0
      → (x.1 ≡ returned → Inv released (k x.0).0)
      → Inv released (x ▸ k).0
  ▸-Inv released (s, returned) k v rest = rest refl
  ▸-Inv released (s, raised) k v rest = v

  after_single-Inv :
      (released : List Record) (r : Record) (s : Source)
      → (should_continue s.poison.policy ≡ true → In r released)
      → Inv released s
      → Inv released (after_single accepts dlq r s).0
  unfolding after_single
  after_single-Inv released r s known v =
      let s' = record s { record_drop_count = s.record_drop_count + 1 } in
      elim (Bool-cases (should_continue s.poison.policy)) [
        | inl continues ↦ rw continues (
            deliver-Inv accepts released r (known continues) s'
              (same-Inv released s s' refl (refl, refl, refl) v))
        | inr closes ↦ rw closes v
      ]

  after_batch-Inv :
      (released rs : List Record) (s : Source)
      → (should_continue s.poison.policy ≡ true → All (λ e. In e released) rs)
      → Inv released s
      → Inv released (after_batch accepts dlq rs s).0
  unfolding after_batch
  after_batch-Inv released rs s known v = elim (Bool-cases (should_continue s.poison.policy)) [
    | inl continues ↦ rw continues (continue-Inv released rs s (known continues) v)
    | inr closes ↦ rw closes v
  ]

  pub single-Inv :
      (released : List Record) (class : Classification) (r : Record) (s : Source)
      → (should_continue s.poison.policy ≡ true → In r released)
      → Inv released s
      → Inv released (handle_single_deserialize_error accepts dlq class r s).0
  unfolding handle_single_deserialize_error
  single-Inv released class r s known v =
      let observed = observe_records class 1 s.poison in
      let s' = record s {
        record_error_count = s.record_error_count + 1;
        poison = (capture_record dlq r observed).0;
      } in
      let same = capture_record-policy dlq r observed ∙ observe_records-policy class 1 s.poison in
      let v' = same-Inv released s s' refl (refl, refl, refl) v in
      ▸-Inv released (s', (capture_record dlq r observed).1) (after_single accepts dlq r) v'
        (λ _. after_single-Inv released r s' (λ h. known (ground (arith, same))) v')

  pub batch-Inv :
      (released : List Record) (class : Classification) (rs : List Record) (s : Source)
      → (should_continue s.poison.policy ≡ true → All (λ e. In e released) rs)
      → Inv released s
      → Inv released (handle_batch_deserialize_error accepts dlq class rs s).0
  unfolding handle_batch_deserialize_error
  batch-Inv released class rs s known v =
      let observed = observe_records class (length rs) s.poison in
      let s' = record s {
        batch_deserialize_error_count = s.batch_deserialize_error_count + 1;
        record_error_count = s.record_error_count + length rs;
        poison = (capture_batch dlq rs observed).0;
      } in
      let same =
        capture_batch-policy dlq rs observed ∙ observe_records-policy class (length rs) s.poison in
      let v' = same-Inv released s s' refl (refl, refl, refl) v in
      ▸-Inv released (s', (capture_batch dlq rs observed).1) (after_batch accepts dlq rs) v'
        (λ _. after_batch-Inv released rs s' (λ h. known (ground (arith, same))) v')

  drop_keys-covered :
      (released : List Record) (partitions : List TopicPartition) (d : Offsets)
      → All (λ e. In e released) d
      → All (λ e. In e released) (drop_keys partitions d)
  unfolding drop_keys
  drop_keys-covered released [] d old = old
  drop_keys-covered released (p ∷ ps) d old =
      drop_keys-covered released ps _ (All-remove (λ e. In e released) p d old)

  drop-Inv :
      (released : List Record) (partitions : List TopicPartition) (s : Source)
      → (s.cursor.pending_commit_count ≡ 0) ⊎ (s.connected && not s.enable_auto_commit ≡ false)
      → Inv released s
      → Inv released (on_cursor (drop_revoked partitions) s)
  unfolding drop_revoked
  drop-Inv released partitions s idle v = record {
    covered = drop_keys-covered released partitions s.cursor.committable_offsets v.covered;
    scoped = ground arith;
    justified = v.justified;
  }

  -- A forced commit that returns leaves nothing to wait, if there is something to commit to.
  forced-idle :
      (s : Source)
      → (commit_if_needed accepts true s).1 ≡ returned
      → let s' = (commit_if_needed accepts true s).0 in
        (s'.cursor.pending_commit_count ≡ 0) ⊎ (s'.connected && not s'.enable_auto_commit ≡ false)
  unfolding commit_if_needed send_commit clear_pending_commit_count
  forced-idle s e = ground arith

  pub revoked-Inv :
      (released : List Record) (partitions : List TopicPartition) (s : Source)
      → Inv released s
      → Inv released (handle_partitions_revoked accepts dlq partitions s).0
  unfolding handle_partitions_revoked
  revoked-Inv released partitions s v =
      let v' = commit-Inv accepts released true s v in
      ▸-Inv released (commit_if_needed accepts true s) _ v' (λ e.
        elim (Bool-cases (is_empty partitions)) [
          | inl none_revoked ↦ rw none_revoked v'
          | inr some_revoked ↦ rw some_revoked (drop-Inv released partitions _ (forced-idle s e) v')
        ])
