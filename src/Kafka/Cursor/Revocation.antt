-- ===== src/Kafka/Cursor/Revocation.antt =====
-- A rebalance takes partitions away: what `drop_revoked` leaves.
use agora_etl_plugins.Common.Dict
use agora_etl_plugins.Common.Dict.{get-remove, All-remove, remove_ne}
use agora_etl_plugins.Common.Sort.{All-sort, All-last}
use agora_etl_plugins.Common.{
  ℕ, ◌≡◌, refl, subst, false, List, [], ◌∷◌, Option, none, some, arith, if◌then◌else◌, ◌==◌,
  pair_eq, nat_eq, string_eq, All, All-both, Bool-cases, inl, inr,
}
use agora_etl_plugins.Kafka.Cursor.{
  TopicPartition, Offsets, CursorState, drop_keys, contains, drop_revoked, last_seen_after,
  sorted_items, item_leb,
}

pub get-drop_keys :
    (tp : TopicPartition) (revoked : List TopicPartition) (d : Offsets)
    → Dict.get tp (drop_keys revoked d) ≡ (if contains tp revoked then none else Dict.get tp d)
unfolding drop_keys contains
get-drop_keys tp [] d = refl
get-drop_keys tp (r ∷ revoked) d =
    rw (get-drop_keys tp revoked (Dict.remove r d), get-remove r tp d) (ground arith)

-- What is left does not belong to a revoked partition.
abbrev IsKept : List TopicPartition → TopicPartition × ℕ → Type 0
IsKept revoked e = contains e.0 revoked ≡ false

All-drop_keys {ℓ} :
    (P : TopicPartition × ℕ → Type ℓ) (revoked : List TopicPartition) (d : Offsets)
    → All P d
    → All P (drop_keys revoked d)
unfolding drop_keys
All-drop_keys P [] d h = h
All-drop_keys P (r ∷ revoked) d h = All-drop_keys P revoked _ (All-remove P r d h)

All-IsKept : (d : Offsets) → All (IsKept []) d
unfolding contains
All-IsKept [] = tt
All-IsKept (x ∷ d) = (refl, All-IsKept d)

IsKept-after :
    (revoked : List TopicPartition) (d : Offsets) → All (IsKept revoked) (drop_keys revoked d)
unfolding drop_keys contains
IsKept-after [] d = All-IsKept d
IsKept-after (r ∷ revoked) d =
    All-both (λ x. (r == x.0) ≡ false) (IsKept revoked) (IsKept (r ∷ revoked))
      (λ x p q. ground arith) _ (All-drop_keys (λ x. (r == x.0) ≡ false) revoked _ (remove_ne r d))
      (IsKept-after revoked (Dict.remove r d))

last_seen_kept :
    (revoked : List TopicPartition) (processed : Offsets)
    → All (IsKept revoked) processed
    → (before : Option (TopicPartition × ℕ)) (seen : TopicPartition × ℕ)
    → last_seen_after revoked processed before ≡ some seen
    → contains seen.0 revoked ≡ false
unfolding last_seen_after sorted_items
last_seen_kept revoked processed kept none seen e = cc
last_seen_kept revoked processed kept (some (tp, o)) seen e =
    elim (Bool-cases (contains tp revoked)) [
      | inl gone ↦
          All-last (IsKept revoked) _ (All-sort (IsKept revoked) item_leb processed kept)
            (rw gone at e)
      | inr stays ↦
          let e' = rw stays at e in
          let same : ◌≡◌ {A = TopicPartition × ℕ} (tp, o) seen = cc in
          subst (IsKept revoked) same stays
    ]

-- After a revocation the processed and the committable offsets of the revoked partitions are gone,
-- and those of the others are as before.
pub drop_revoked_lem :
    (revoked : List TopicPartition) (s : CursorState) (tp : TopicPartition)
    → let s' = drop_revoked revoked s in
      (Dict.get tp s'.processed_offsets
        ≡ (if contains tp revoked then none else Dict.get tp s.processed_offsets))
      × (Dict.get tp s'.committable_offsets
          ≡ (if contains tp revoked then none else Dict.get tp s.committable_offsets))
unfolding drop_revoked
drop_revoked_lem revoked s tp =
    (get-drop_keys tp revoked s.processed_offsets, get-drop_keys tp revoked s.committable_offsets)

-- The last record seen after a revocation is of no revoked partition.
pub drop_revoked-last_seen :
    (revoked : List TopicPartition) (s : CursorState) (seen : TopicPartition × ℕ)
    → (drop_revoked revoked s).last_seen ≡ some seen
    → contains seen.0 revoked ≡ false
unfolding drop_revoked
drop_revoked-last_seen revoked s seen e =
    last_seen_kept revoked _ (IsKept-after revoked s.processed_offsets) s.last_seen seen e
