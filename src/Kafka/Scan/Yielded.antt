-- ===== src/Kafka/Scan/Yielded.antt =====
-- What a scan yields: of the messages that it has read, the latest record of each key.
use agora_etl_plugins.Common.{
  ℕ, zero, suc, ◌+◌, ◌≡◌, refl, sym, ap, ◌∙◌, subst, String, Bool, true, false, ◌&&◌, Option, none,
  some, List, [], ◌∷◌, ◌++◌, if◌then◌else◌, length, arith, if-cases, map, take, ◌<◌, ◌-◌,
}
use agora_etl_plugins.Common.Lists.{filter}
use agora_etl_plugins.Common.Sets.{is_nil}
use agora_etl_plugins.Common.Sort.{sort}
use agora_etl_plugins.Kafka.Compaction.{initial, live_values, live_records}
use agora_etl_plugins.Kafka.Compaction.Latest.{update_all}
use agora_etl_plugins.Kafka.Scan.{
  Loop, Scan, no_fuel, raised, ended, Outcome, running, scan_raised, yields, matches, is_wanted,
  has_reached, yield_first, yield_records, yield_live, yield_after, start_loop, after_seek,
  after_wait, scan_loop, iter_records,
}
use agora_etl_plugins.Kafka.Scan.Assignment.{
  Setup, Source, wait_for_assignment, apply_start_offsets, partition_highwater_offsets,
}
use agora_etl_plugins.Kafka.Scan.Scanned.{settings, Delivers, waiting, updates_of, IsScan}
use agora_etl_plugins.Kafka.Scan.Assigned.{
  Untouched, IsWaited, IsSought, wait_for_assignment-IsWaited, apply_start_offsets-IsSought,
}
use agora_etl_plugins.Kafka.Scan.Turns.{IsEnded, scan_loop-IsEnded}

-- As many as are asked for.
abbrev pub limited : {A : Type 0} → Option ℕ → List A → List A
limited none xs = xs
limited (some n) xs = take n xs

-- What is left of the limit.
abbrev left_of : Option ℕ → ℕ → Option ℕ
left_of none yielded = none
left_of (some limit) yielded = some (limit - yielded)

abbrev pub Below : Option ℕ → ℕ → Type 0
Below none yielded = Unit {0}
Below (some limit) yielded = yielded < limit

limited-last :
    {A : Type 0} (o : Option ℕ) (yielded : ℕ) (x : A) (xs : List A)
    → Below o yielded
    → has_reached o (yielded + 1) ≡ true
    → x ∷ [] ≡ limited (left_of o yielded) (x ∷ xs)
limited-last none yielded x xs h r = cc
limited-last (some limit) yielded x xs h r =
    let one : limit - yielded ≡ 1 = ground (arith, h, r) in rw one

limited-next :
    {A : Type 0} (o : Option ℕ) (yielded : ℕ) (x : A) (xs : List A)
    → Below o yielded
    → has_reached o (yielded + 1) ≡ false
    → (x ∷ limited (left_of o (yielded + 1)) xs ≡ limited (left_of o yielded) (x ∷ xs))
      × Below o (yielded + 1)
limited-next none yielded x xs h r = (refl, tt)
limited-next (some limit) yielded x xs h r =
    let later : limit - yielded ≡ suc (limit - (yielded + 1)) = ground (arith, h, r) in
    (rw later, ground (arith, r))

limited-all : {A : Type 0} (o : Option ℕ) (xs : List A) → limited (left_of o 0) xs ≡ limited o xs
limited-all none xs = refl
limited-all (some limit) xs = let same : limit - 0 ≡ limit = omega arith in rw same

limited-nil : {A : Type 0} (o : Option ℕ) → limited {A = A} o [] ≡ []
limited-nil none = refl
limited-nil (some zero) = refl
limited-nil (some (suc n)) = refl

module _ {P M Rec Payload Text Db S : Type 0} (u : Setup P M Rec Payload Text Db S) where
  open u use {codec, table, client, pipeline_of, stage_of}

  abbrev pub is_match : Option String × Option String × Option ℕ → Rec → Bool
  is_match c r = is_wanted c.0 (pipeline_of r) && is_wanted c.1 (stage_of r)

  unfoldable pub matching : Option String × Option String × Option ℕ → List (ℕ × Rec) → List Rec
  unfolding filter
  matching c live = filter (is_match c) (map (λ entry. entry.1) live)

  yield_records-limited :
      (live : List (ℕ × Rec)) (yielded : ℕ) (k : Source P M)
      → Below k.limit yielded
      → (yield_records u live yielded k).1
        ≡ limited (left_of k.limit yielded) (matching (settings k) live)
  unfolding yield_records matching filter matches
  yield_records-limited [] yielded k h = sym (limited-nil (left_of k.limit yielded))
  yield_records-limited ((n, r) ∷ live) yielded k h =
      let rest = matching (settings k) live in
      let Ends = λ (b : Bool) (out : Source P M × List Rec).
        out.1 ≡ limited (left_of k.limit yielded) (if b then r ∷ rest else rest) in
      let k' = record k { matched_record_count = k.matched_record_count + 1 } in
      let taken : Source P M × List Rec =
        if has_reached k.limit (yielded + 1)
        then (k', r ∷ [])
        else yield_first u r (yield_records u live (yielded + 1) k') in
      if-cases (Ends (is_match (settings k) r)) (is_match (settings k) r)
        (λ fits.
          subst (λ b. Ends b taken) (sym fits)
            (if-cases (Ends true) (has_reached k.limit (yielded + 1))
              (λ full. limited-last k.limit yielded r rest h full)
              (λ room.
                let next = limited-next k.limit yielded r rest h room in
                ap (λ l. r ∷ l) (yield_records-limited live (yielded + 1) k' next.1) ∙ next.0)))
        (λ other.
          subst (λ b. Ends b (yield_records u live yielded k)) (sym other)
            (yield_records-limited live yielded k h))

  -- What a scan of some source came to: the records are the live ones of the messages that were
  -- scanned which are asked for, as many as that. The messages are the first that were delivered.
  unfoldable pub IsYield : Source P M → S → Outcome P M Rec → Type 0
  IsYield k0 s0 running = Unit {0}
  IsYield k0 s0 scan_raised = Unit {0}
  IsYield k0 s0 (yields k records) =
      (messages rest : List M) × (s : S) × Delivers u s0 (messages ++ rest) s
      × (live : List (ℕ × Rec)) × (live_records codec table (
            update_all codec table (updates_of u 0 messages)
              (initial k0.compaction_spill_threshold))
          ≡ some live)
      × (records ≡ limited k0.limit (matching (settings k0) live))

  yield_live-IsYield :
      (k0 : Source P M) (s0 s : S) (l : Loop P M Rec Db) (o : Option (List (ℕ × Rec)))
      → live_records codec table l.compaction ≡ o
      → Below k0.limit 0
      → IsScan u k0 l
      → Delivers u s0 (l.messages ++ waiting u l.source) s
      → IsYield k0 s0 (yield_live u l.source o)
  unfolding yield_live IsYield
  yield_live-IsYield k0 s0 s l none h b inv delivered = tt
  yield_live-IsYield k0 s0 s l (some live) h b inv delivered =
      let k = l.source in
      let k' = record k {
        scan_count = k.scan_count + 1;
        live_record_count = length live;
        matched_record_count = 0;
      } in
      (
        l.messages,
        waiting u l.source,
        s,
        delivered,
        live,
        ap (live_records codec table) (sym inv.compacted) ∙ h,
        yield_records-limited live 0 k' (subst (λ c. Below c.2 0) (sym inv.chosen) b)
            ∙ ap (λ c. limited (left_of c.2 0) (matching c live)) inv.chosen
            ∙ limited-all k0.limit (matching (settings k0) live),
      )

  yield_after-IsYield :
      (k0 : Source P M) (s0 : S) (r : Scan P M Rec Db S)
      → Below k0.limit 0
      → IsEnded u k0 s0 r
      → IsYield k0 s0 (yield_after u r)
  unfolding yield_after IsYield
  yield_after-IsYield k0 s0 no_fuel b h = tt
  yield_after-IsYield k0 s0 raised b h = tt
  yield_after-IsYield k0 s0 (ended l s) b (inv, delivered) =
      yield_live-IsYield k0 s0 s l (live_records codec table l.compaction) refl b inv delivered

  start_loop-IsScan : (k0 k : Source P M) → Untouched u k0 k → IsScan u k0 (start_loop u k)
  unfolding start_loop update_all updates_of
  start_loop-IsScan k0 k same = record {
    compacted = ap initial same.threshold;
    numbered = refl;
    chosen = same.chosen;
    counts = omega (arith, same.counts);
  }

  after_seek-IsYield :
      (k0 : Source P M) (s0 : S) (fuel : ℕ) (assignment : List P) (o : Option (Source P M × S))
      → Below k0.limit 0
      → IsSought u k0 s0 o
      → IsYield k0 s0 (after_seek u fuel assignment o)
  unfolding after_seek IsYield start_loop
  after_seek-IsYield k0 s0 fuel assignment none b h = tt
  after_seek-IsYield k0 s0 fuel assignment (some (k, s)) b (delivered, same) =
      let highwater = partition_highwater_offsets u k assignment s in
      yield_after-IsYield k0 s0 (scan_loop u fuel highwater k.scan_idle_polls 0 (start_loop u k) s)
        b
        (scan_loop-IsEnded u k0 s0 fuel highwater k.scan_idle_polls 0 (start_loop u k) s
          (start_loop-IsScan k0 k same, delivered))

  after_wait-IsYield :
      (k0 : Source P M) (s0 : S) (fuel : ℕ) (o : Option (Source P M × S × List P))
      → Below k0.limit 0
      → IsWaited u k0 s0 o
      → IsYield k0 s0 (after_wait u fuel o)
  unfolding after_wait IsYield update_all updates_of live_records live_values sort matching filter
  after_wait-IsYield k0 s0 fuel none b h = tt
  after_wait-IsYield k0 s0 fuel (some (k, s, assignment)) b h =
      if-cases (IsYield k0 s0) (is_nil assignment)
        (λ no. ([], waiting u k, s, h.0, [], refl, sym (limited-nil k0.limit)))
        (λ yes'.
          after_seek-IsYield k0 s0 fuel assignment (apply_start_offsets u k s) b
            (apply_start_offsets-IsSought u k0 k s0 s h))

  -- Where the limit is not zero, the records that a scan yields are, in their order, those live
  -- records that have the pipeline and the stage that are asked for, cut to the limit. The live
  -- records are those of the compaction of the messages scanned, numbered from 0, and these are the
  -- first of what the consumer delivered, with those of the wait for an assignment before.
  pub iter_records-IsYield :
      (fuel : ℕ) (k : Source P M) (s : S) → Below k.limit 0 → IsYield k s (iter_records u fuel k s)
  unfolding iter_records
  iter_records-IsYield fuel k s b =
      after_wait-IsYield k s fuel (wait_for_assignment u k s) b (wait_for_assignment-IsWaited u k s)
