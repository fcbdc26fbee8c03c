-- ===== src/Kafka/Delivery/Commit.antt =====
-- When a commit goes out, and what it leaves.
use agora_etl_plugins.Common.{
  ℕ, ◌≡◌, Bool, not, ◌&&◌, ◌||◌, [], ◌∷◌, ◌++◌, arith, if◌then◌else◌, leb, ltb,
}
use agora_etl_plugins.Kafka.Cursor.{clear_pending_commit_count}
use agora_etl_plugins.Kafka.Poison.{returned, raised}
use agora_etl_plugins.Kafka.Delivery.{Source, request, commit_if_needed}

-- A commit is due: there is a consumer, offsets are committed by hand, a record waits, and either
-- the commit is forced or enough records wait.
abbrev pub is_due : Bool → Source → Bool
is_due force s =
    s.connected
    && not s.enable_auto_commit
    && ltb 0 s.cursor.pending_commit_count
    && (force || leb s.commit_every s.cursor.pending_commit_count)

module _ (accepts : ℕ → Bool) where
  -- On every branch: the committable offsets stay; a commit goes out exactly if it is due; taken,
  -- it is the request of the cursor, and nothing waits any more; refused, it raises and leaves
  -- the count of waiting records.
  pub commit_if_needed_lem :
      (force : Bool) (s : Source)
      → let (s', signal) = commit_if_needed accepts force s in
        let taken = is_due force s && accepts s.attempts in
        (s'.cursor.committable_offsets ≡ s.cursor.committable_offsets)
        × (s'.commits ≡ (if taken then s.commits ++ (request s.cursor ∷ []) else s.commits))
        × (s'.cursor.pending_commit_count ≡ (if taken then 0 else s.cursor.pending_commit_count))
        × (signal ≡ (if is_due force s && not (accepts s.attempts) then raised else returned))
  unfolding commit_if_needed clear_pending_commit_count
  commit_if_needed_lem force s = ground arith
