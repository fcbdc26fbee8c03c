-- ===== src/Distributed/Workers.antt =====
-- distributed/worker_registry.py: `RedisWorkerRegistry.list_workers`, which lists the workers that have
-- registered. A SCAN of Redis answers with pages, each with the cursor of the next; an MGET, and how
-- the value of a key is read as a worker or as none (`worker_info_from_raw`, which is json), are
-- parameters. The key prefix is a glob pattern that matches itself.
pub mod Listed
mod Tests
use agora_etl_plugins.Common.{
  ℕ, zero, suc, ◌+◌, String, Bool, true, false, Option, none, some, List, [], ◌∷◌, ◌++◌,
  if◌then◌else◌, leb, length, nat_beq, string_eq,
}
use agora_etl_plugins.Common.Sets.{has, add, is_nil}

pub record Page : Type 0 where
  pub cursor : ℕ
  pub keys : List String

-- The state of the loop. `seen_keys` is a set: of its order nothing is used.
pub record Listing (W : Type 0) : Type 0 where
  pub seen_keys : List String
  pub pending_keys : List String
  pub workers : List W

module _ {Raw W : Type 0} (mget : List String → List Raw)
    (worker_info_from_raw : Raw → Option W) where
  abbrev pub keep_worker : Option W → List W → List W
  keep_worker none workers = workers
  keep_worker (some w) workers = w ∷ workers

  unfoldable pub workers_of : List Raw → List W
  workers_of [] = []
  workers_of (raw ∷ raws) = keep_worker (worker_info_from_raw raw) (workers_of raws)

  unfoldable pub fetch_worker_batch : List String → List W
  unfolding workers_of
  fetch_worker_batch keys = if is_nil keys then [] else workers_of (mget keys)

  -- The batch is fetched once it is full.
  unfoldable pub fetch_if_full : ℕ → Listing W → Listing W
  unfolding fetch_worker_batch
  fetch_if_full fetch_batch_size l =
      if leb fetch_batch_size (length l.pending_keys)
      then record l { pending_keys = []; workers = l.workers ++ fetch_worker_batch l.pending_keys }
      else l

  unfoldable pub add_key : ℕ → String → Listing W → Listing W
  unfolding fetch_if_full add
  add_key fetch_batch_size key l =
      if has key l.seen_keys
      then l
      else fetch_if_full fetch_batch_size (record l {
        seen_keys = add key l.seen_keys;
        pending_keys = l.pending_keys ++ (key ∷ []);
      })

  unfoldable pub add_keys : ℕ → List String → Listing W → Listing W
  unfolding add_key
  add_keys fetch_batch_size [] l = l
  add_keys fetch_batch_size (key ∷ keys) l =
      add_keys fetch_batch_size keys (add_key fetch_batch_size key l)

  -- The loop over the pages, which ends at the cursor 0; it never ends where none comes.
  unfoldable pub scan_pages : ℕ → List Page → Listing W → Option (Listing W)
  unfolding add_keys
  scan_pages fetch_batch_size [] l = none
  scan_pages fetch_batch_size (page ∷ pages) l =
      let l' = add_keys fetch_batch_size page.keys l in
      let rest = scan_pages fetch_batch_size pages l' in
      if nat_beq page.cursor 0 then some l' else rest

  unfoldable pub finish : Option (Listing W) → Option (List W)
  unfolding fetch_worker_batch
  finish none = none
  finish (some l) = some (l.workers ++ fetch_worker_batch l.pending_keys)

  -- `redis is None` where it is not connected.
  unfoldable pub list_workers : Bool → ℕ → List Page → Option (List W)
  unfolding scan_pages finish
  list_workers connected fetch_batch_size pages =
      if connected
      then finish (
          scan_pages fetch_batch_size pages
            (record { seen_keys = []; pending_keys = []; workers = [] }))
      else some []
