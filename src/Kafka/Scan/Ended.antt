-- ===== src/Kafka/Scan/Ended.antt =====
-- A scan comes to an end where the consumer has only so many polls left that deliver messages.
use agora_etl_plugins.Common.{
  ℕ, zero, suc, ◌+◌, ◌*◌, ◌-◌, ◌≤◌, ◌<◌, ◌≡◌, ◌≢◌, refl, ap, ◌∙◌, subst, Bool, true, false, not,
  ◌&&◌, Option, none, some, List, [], ◌∷◌, if◌then◌else◌, if-cases, ltb, length, arith,
}
use agora_etl_plugins.Common.Sets.{is_nil}
use agora_etl_plugins.Kafka.Compaction.{live_records}
use agora_etl_plugins.Kafka.Scan.{
  Loop, Turn, failed, stop, more, Scan, no_fuel, raised, ended, Outcome, running, non_empty,
  and_then, count_event, decoded, scan_message, scan_messages, scan_batches, next_batches,
  after_scan, after_poll, turn, follow, scan_loop, yield_live, yield_after, start_loop, after_seek,
  after_wait, iter_records, is_delete,
}
use agora_etl_plugins.Kafka.Scan.Assignment.{
  Setup, Source, positions_reached_highwater, partition_highwater_offsets, apply_start_offsets,
  wait_for_assignment,
}

less_cost :
    (a b polls i j : ℕ) → suc a ≤ b → a * suc polls + (polls - i) < b * suc polls + (polls - j)
less_cost a b polls i j h = grind arith

mul_mono : (a b c : ℕ) → a ≤ b → a * c ≤ b * c
mul_mono a b c h = grind arith

module _ {P M Rec Payload Text Db S : Type 0} (u : Setup P M Rec Payload Text Db S) where
  open u use {codec, table, client, decode_envelope}

  -- Each poll that delivers messages leaves fewer of them to come.
  pub record Drains : Type 0 where
    pub pending : S → ℕ
    pub polled_lem :
        (s s' : S) (batches : List (List M))
        → client.getmany s ≡ some (s', batches)
        → pending s' + (if non_empty batches then 1 else 0) ≤ pending s

  -- A scan of messages leaves the batches that wait.
  abbrev Keeps : Loop P M Rec Db → Option (Loop P M Rec Db) → Type 0
  Keeps l none = Unit {0}
  Keeps l (some l') = l'.source.assignment_prefetch_batches ≡ l.source.assignment_prefetch_batches

  and_then-Keeps :
      (l : Loop P M Rec Db) (o : Option (Loop P M Rec Db))
      → (next : Loop P M Rec Db → Option (Loop P M Rec Db)) → Keeps l o
      → ((l1 : Loop P M Rec Db) → Keeps l1 (next l1))
      → Keeps l (and_then o next)
  and_then-Keeps l none next h hs = tt
  and_then-Keeps l (some l1) next h hs = go (next l1) (hs l1)
    where
      go : (o : Option (Loop P M Rec Db)) → Keeps l1 o → Keeps l o
      go none k = tt
      go (some l') k = k ∙ h

  decoded-Keeps : (m : M) (l : Loop P M Rec Db) (o : Option _) → Keeps l (decoded u m l o)
  unfolding decoded count_event
  decoded-Keeps m l none = tt
  decoded-Keeps m l (some d) = by_event (is_delete d.0)
    where
      by_event :
          (b : Bool)
          → (count_event u b l.source).assignment_prefetch_batches
            ≡ l.source.assignment_prefetch_batches
      by_event true = refl
      by_event false = refl

  scan_messages-Keeps :
      (messages : List M) (l : Loop P M Rec Db) → Keeps l (scan_messages u messages l)
  unfolding scan_messages scan_message
  scan_messages-Keeps [] l = refl
  scan_messages-Keeps (m ∷ messages) l =
      and_then-Keeps l (scan_message u m l) (scan_messages u messages)
        (decoded-Keeps m l (decode_envelope m)) (scan_messages-Keeps messages)

  scan_batches-Keeps :
      (batches : List (List M)) (l : Loop P M Rec Db) → Keeps l (scan_batches u batches l)
  unfolding scan_batches
  scan_batches-Keeps [] l = refl
  scan_batches-Keeps (messages ∷ batches) l =
      and_then-Keeps l (scan_messages u messages l) (scan_batches u batches)
        (scan_messages-Keeps messages l) (scan_batches-Keeps batches)

  module _ (drains : Drains) (polls : ℕ) where
    open drains use {pending}

    -- How many more turns the loop can take.
    abbrev cost : ℕ → Loop P M Rec Db → S → ℕ
    cost idle l s =
        (length l.source.assignment_prefetch_batches + pending s) * suc polls + (polls - idle)

    abbrev Costs : ℕ → Turn P M Rec Db S → Type 0
    Costs n failed = Unit {0}
    Costs n (stop l s) = Unit {0}
    Costs n (more idle l s) = cost idle l s < n

    after_scan-Costs :
        (idle n : ℕ) (b : Bool) (highwater : List (P × ℕ)) (s : S)
        → (o : Option (Loop P M Rec Db))
        → ((l : Loop P M Rec Db) → o ≡ some l → cost (if b then 0 else idle + 1) l s < n)
        → Costs n (after_scan u idle b highwater s o)
    unfolding after_scan
    after_scan-Costs idle n b highwater s none h = tt
    after_scan-Costs idle n b highwater s (some l) h =
        if-cases (Costs n) (not (is_nil highwater) && positions_reached_highwater u highwater s)
          (λ reached. tt) (λ before. h l refl)

    next_cost :
        (b : Bool) (a a' idle : ℕ)
        → idle < polls
        → a' + (if b then 1 else 0) ≤ a
        → a' * suc polls + (polls - (if b then 0 else idle + 1)) < a * suc polls + (polls - idle)
    next_cost true a a' idle h k = less_cost a' a polls 0 idle (omega (arith, k))
    next_cost false a a' idle h k = omega (arith, h, mul_mono a' a (suc polls) (omega (arith, k)))

    kept_length :
        (l : Loop P M Rec Db) (batches : List (List M)) (l' : Loop P M Rec Db)
        → scan_batches u batches l ≡ some l'
        → length l'.source.assignment_prefetch_batches ≡ length l.source.assignment_prefetch_batches
    kept_length l batches l' e = ap length (subst (λ o. Keeps l o) e (scan_batches-Keeps batches l))

    after_wait_batches :
        (idle : ℕ) (highwater : List (P × ℕ)) (l : Loop P M Rec Db) (s : S)
        (batches : List (List M))
        → (rest : List (List (List M))) → l.source.assignment_prefetch_batches ≡ batches ∷ rest
        → Costs (cost idle l s) (after_poll u idle highwater (next_batches u (batches ∷ rest) l s))
    unfolding after_poll next_batches
    after_wait_batches idle highwater l s batches rest e =
        let l1 = record l { source = record l.source { assignment_prefetch_batches = rest } } in
        after_scan-Costs idle (cost idle l s) (non_empty batches) highwater s
          (scan_batches u batches l1)
          (λ l' f.
            less_cost (length l'.source.assignment_prefetch_batches + pending s)
              (length l.source.assignment_prefetch_batches + pending s) polls
              (if non_empty batches then 0 else idle + 1) idle
              (omega (arith, kept_length l1 batches l' f, ap length e)))

    after_getmany :
        (idle : ℕ) (highwater : List (P × ℕ)) (l : Loop P M Rec Db) (s : S)
        → (o : Option (S × List (List M))) → client.getmany s ≡ o
        → idle < polls
        → Costs (cost idle l s) (
            after_poll u idle highwater
              (elim o [ none ↦ none | some (s', batches) ↦ some (l, s', batches) ]))
    unfolding after_poll
    after_getmany idle highwater l s none e h = tt
    after_getmany idle highwater l s (some (s', batches)) e h =
        after_scan-Costs idle (cost idle l s) (non_empty batches) highwater s'
          (scan_batches u batches l)
          (λ l' f.
            next_cost (non_empty batches) (length l.source.assignment_prefetch_batches + pending s)
              (length l'.source.assignment_prefetch_batches + pending s') idle h
              (omega (arith, kept_length l batches l' f, drains.polled_lem s s' batches e)))

    turn-Costs :
        (idle : ℕ) (highwater : List (P × ℕ)) (l : Loop P M Rec Db) (s : S)
        → (waits : List (List (List M))) → l.source.assignment_prefetch_batches ≡ waits
        → idle < polls
        → Costs (cost idle l s) (after_poll u idle highwater (next_batches u waits l s))
    unfolding next_batches
    turn-Costs idle highwater l s [] e h =
        after_getmany idle highwater l s (client.getmany s) refl h
    turn-Costs idle highwater l s (batches ∷ rest) e h =
        after_wait_batches idle highwater l s batches rest e

    follow-ends :
        (n : ℕ) (t : Turn P M Rec Db S)
        → (next : ℕ → Loop P M Rec Db → S → Scan P M Rec Db S) → Costs n t
        → ((idle : ℕ) (l : Loop P M Rec Db) (s : S) → cost idle l s < n → next idle l s ≢ no_fuel)
        → follow u t next ≢ no_fuel
    unfolding follow
    follow-ends n failed next h hs = λ e. cc
    follow-ends n (stop l s) next h hs = λ e. cc
    follow-ends n (more idle l s) next h hs = hs idle l s h

    scan_loop-ends :
        (fuel : ℕ) (highwater : List (P × ℕ)) (idle : ℕ) (l : Loop P M Rec Db) (s : S)
        → cost idle l s < fuel
        → scan_loop u fuel highwater polls idle l s ≢ no_fuel
    unfolding scan_loop turn
    scan_loop-ends zero highwater idle l s h = omega (arith, h)
    scan_loop-ends (suc n) highwater idle l s h =
        if-cases (λ r. r ≢ no_fuel) (ltb idle polls)
          (λ on.
            follow-ends (cost idle l s) (turn u idle highwater l s) (scan_loop u n highwater polls)
              (turn-Costs idle highwater l s l.source.assignment_prefetch_batches refl
                (ground (arith, on)))
              (λ idle' l' s' k. scan_loop-ends n highwater idle' l' s' (omega (arith, h, k))))
          (λ off. λ e. cc)

  yield_live-ends : (k : Source P M) (o : Option _) → yield_live u k o ≢ running
  unfolding yield_live
  yield_live-ends k none = λ e. cc
  yield_live-ends k (some live) = λ e. cc

  yield_after-ends : (r : Scan P M Rec Db S) → r ≢ no_fuel → yield_after u r ≢ running
  unfolding yield_after
  yield_after-ends no_fuel h = λ e. h refl
  yield_after-ends raised h = λ e. cc
  yield_after-ends (ended l s) h = yield_live-ends l.source (live_records codec table l.compaction)

  -- Some fuel, and all that is more, is enough.
  abbrev HasFuel : (ℕ → Outcome P M Rec) → Type 0
  HasFuel run = (n : ℕ) × ((fuel : ℕ) → n < fuel → run fuel ≢ running)

  after_seek-ends :
      (assignment : List P) (o : Option (Source P M × S))
      → Drains
      → HasFuel (λ fuel. after_seek u fuel assignment o)
  unfolding after_seek start_loop
  after_seek-ends assignment none drains = (0, λ fuel h. λ e. cc)
  after_seek-ends assignment (some (k, s)) drains = (
    cost drains k.scan_idle_polls 0 (start_loop u k) s,
    λ fuel h.
        let highwater = partition_highwater_offsets u k assignment s in
        yield_after-ends (scan_loop u fuel highwater k.scan_idle_polls 0 (start_loop u k) s)
          (scan_loop-ends drains k.scan_idle_polls fuel highwater 0 (start_loop u k) s h),
  )

  after_wait-ends :
      (o : Option (Source P M × S × List P)) → Drains → HasFuel (λ fuel. after_wait u fuel o)
  unfolding after_wait
  after_wait-ends none drains = (0, λ fuel h. λ e. cc)
  after_wait-ends (some (k, s, assignment)) drains =
      let (n, rest) = after_seek-ends assignment (apply_start_offsets u k s) drains in
      (
        n,
        λ fuel h.
            if-cases (λ r. r ≢ running) (is_nil assignment) (λ no. λ e. cc) (λ yes'. rest fuel h),
      )

  -- Where each poll that delivers messages leaves fewer such polls to come, there is an amount of
  -- fuel so that a scan with more of it ends: it yields records or raises. The amount is found from
  -- the batches of the wait for an assignment, the polls to come and the idle polls allowed.
  pub iter_records-ends :
      (k : Source P M) (s : S)
      → Drains
      → (n : ℕ) × ((fuel : ℕ) → n < fuel → iter_records u fuel k s ≢ running)
  unfolding iter_records
  iter_records-ends k s drains = after_wait-ends (wait_for_assignment u k s) drains
