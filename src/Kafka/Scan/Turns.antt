-- ===== src/Kafka/Scan/Turns.antt =====
-- The loop of a scan, turn by turn: what was delivered is what was scanned, and what waits.
use mathlib.Core.List.{append-nil, append_assoc}
use agora_etl_plugins.Common.{
  ℕ, zero, suc, ◌≡◌, refl, sym, ap, ◌∙◌, subst, Bool, Option, none, some, List, [], ◌∷◌, ◌++◌,
  if-cases, not, ◌&&◌, ltb,
}
use agora_etl_plugins.Common.Lists.{flatten, flatten-append}
use agora_etl_plugins.Common.Sets.{is_nil}
use agora_etl_plugins.Kafka.Scan.{
  Loop, Turn, failed, stop, more, Scan, no_fuel, raised, ended, scan_batches, non_empty,
  next_batches, after_scan, after_poll, turn, follow, scan_loop,
}
use agora_etl_plugins.Kafka.Scan.Assignment.{Setup, Source, positions_reached_highwater}
use agora_etl_plugins.Kafka.Scan.Scanned.{
  Delivers, polled, waiting, IsScan, Scans, scan_batches-Scans,
}

module _ {P M Rec Payload Text Db S : Type 0} (u : Setup P M Rec Payload Text Db S) where
  open u use {codec, table, client, decode_envelope}

  -- The invariant of the loop: what the consumer has delivered is what was scanned, and what waits.
  abbrev IsLoop : Source P M → S → Loop P M Rec Db → S → Type 0
  IsLoop k0 s0 l s = IsScan u k0 l × Delivers u s0 (l.messages ++ waiting u l.source) s

  abbrev IsTurn : Source P M → S → Turn P M Rec Db S → Type 0
  IsTurn k0 s0 failed = Unit {0}
  IsTurn k0 s0 (stop l s) = IsLoop k0 s0 l s
  IsTurn k0 s0 (more n l s) = IsLoop k0 s0 l s

  after_scan-IsTurn :
      (k0 : Source P M) (s0 s : S) (idle : ℕ) (has_messages : Bool)
      → (highwater : List (P × ℕ)) (messages : List M) (l : Loop P M Rec Db)
      → (o : Option (Loop P M Rec Db)) → Scans u k0 messages l o
      → Delivers u s0 (l.messages ++ messages ++ waiting u l.source) s
      → IsTurn k0 s0 (after_scan u idle has_messages highwater s o)
  unfolding after_scan
  after_scan-IsTurn k0 s0 s idle has_messages highwater messages l none h delivered = tt
  after_scan-IsTurn k0 s0 s idle has_messages highwater messages l (some l') (inv, added, kept)
        delivered =
      let delivered' =
        subst (λ ms. Delivers u s0 ms s)
          (ap (λ ms. ms ++ waiting u l.source) (sym added)
            ∙ ap (λ b. l'.messages ++ flatten (flatten b)) (sym kept))
          delivered in
      if-cases (IsTurn k0 s0) (not (is_nil highwater) && positions_reached_highwater u highwater s)
        (λ reached. (
          record {
            compacted = inv.compacted;
            numbered = inv.numbered;
            chosen = inv.chosen;
            counts = inv.counts;
          },
          delivered',
        ))
        (λ below. (inv, delivered'))

  abbrev IsPolled : Source P M → S → Option (Loop P M Rec Db × S × List (List M)) → Type 0
  IsPolled k0 s0 none = Unit {0}
  IsPolled k0 s0 (some (l, s, batches)) =
      IsScan u k0 l × Delivers u s0 (l.messages ++ flatten batches ++ waiting u l.source) s

  getmany-IsPolled :
      (k0 : Source P M) (s0 s : S) (l : Loop P M Rec Db)
      → (o : Option (S × List (List M))) → client.getmany s ≡ o
      → l.source.assignment_prefetch_batches ≡ []
      → IsLoop k0 s0 l s
      → IsPolled k0 s0 (elim o [ none ↦ none | some (s', batches) ↦ some (l, s', batches) ])
  unfolding flatten
  getmany-IsPolled k0 s0 s l none h empty inv = tt
  getmany-IsPolled k0 s0 s l (some (s', batches)) h empty (inv, delivered) =
      let nothing_waits : waiting u l.source ≡ [] = ap (λ b. flatten (flatten b)) empty in
      (
        inv,
        subst (λ ms. Delivers u s0 ms s')
            (ap (λ ms. l.messages ++ ms ++ flatten batches) nothing_waits
              ∙ ap (λ ms. ms ++ flatten batches) (append-nil l.messages)
              ∙ sym (append-nil (l.messages ++ flatten batches))
              ∙ ap (λ ms. l.messages ++ flatten batches ++ ms) (sym nothing_waits))
            (polled batches delivered h),
      )

  next_batches-IsPolled :
      (k0 : Source P M) (s0 s : S) (l : Loop P M Rec Db)
      → (prefetch : List (List (List M))) → l.source.assignment_prefetch_batches ≡ prefetch
      → IsLoop k0 s0 l s
      → IsPolled k0 s0 (next_batches u prefetch l s)
  unfolding next_batches flatten
  next_batches-IsPolled k0 s0 s l [] h inv =
      getmany-IsPolled k0 s0 s l (client.getmany s) refl h inv
  next_batches-IsPolled k0 s0 s l (batches ∷ rest) h (inv, delivered) = (
    record {
      compacted = inv.compacted;
      numbered = inv.numbered;
      chosen = inv.chosen;
      counts = inv.counts;
    },
    subst (λ ms. Delivers u s0 ms s)
        (ap (λ b. l.messages ++ flatten (flatten b)) h
          ∙ ap (λ ms. l.messages ++ ms) (flatten-append batches (flatten rest))
          ∙ sym (append_assoc l.messages (flatten batches) (flatten (flatten rest))))
        delivered,
  )

  after_poll-IsTurn :
      (k0 : Source P M) (s0 : S) (idle : ℕ) (highwater : List (P × ℕ))
      → (o : Option (Loop P M Rec Db × S × List (List M))) → IsPolled k0 s0 o
      → IsTurn k0 s0 (after_poll u idle highwater o)
  unfolding after_poll
  after_poll-IsTurn k0 s0 idle highwater none h = tt
  after_poll-IsTurn k0 s0 idle highwater (some (l, s, batches)) (inv, delivered) =
      after_scan-IsTurn k0 s0 s idle (non_empty batches) highwater (flatten batches) l
        (scan_batches u batches l) (scan_batches-Scans u k0 batches l inv) delivered

  turn-IsTurn :
      (k0 : Source P M) (s0 s : S) (idle : ℕ) (highwater : List (P × ℕ))
      → (l : Loop P M Rec Db) → IsLoop k0 s0 l s
      → IsTurn k0 s0 (turn u idle highwater l s)
  unfolding turn
  turn-IsTurn k0 s0 s idle highwater l inv =
      after_poll-IsTurn k0 s0 idle highwater
        (next_batches u l.source.assignment_prefetch_batches l s)
        (next_batches-IsPolled k0 s0 s l l.source.assignment_prefetch_batches refl inv)

  abbrev pub IsEnded : Source P M → S → Scan P M Rec Db S → Type 0
  IsEnded k0 s0 no_fuel = Unit {0}
  IsEnded k0 s0 raised = Unit {0}
  IsEnded k0 s0 (ended l s) = IsLoop k0 s0 l s

  follow-IsEnded :
      (k0 : Source P M) (s0 : S) (t : Turn P M Rec Db S)
      → (next : ℕ → Loop P M Rec Db → S → Scan P M Rec Db S) → IsTurn k0 s0 t
      → ((n : ℕ) (l : Loop P M Rec Db) (s : S) → IsLoop k0 s0 l s → IsEnded k0 s0 (next n l s))
      → IsEnded k0 s0 (follow u t next)
  unfolding follow
  follow-IsEnded k0 s0 failed next h hs = tt
  follow-IsEnded k0 s0 (stop l s) next h hs = h
  follow-IsEnded k0 s0 (more n l s) next h hs = hs n l s h

  pub scan_loop-IsEnded :
      (k0 : Source P M) (s0 : S) (fuel : ℕ) (highwater : List (P × ℕ))
      → (polls idle : ℕ) (l : Loop P M Rec Db) (s : S) → IsLoop k0 s0 l s
      → IsEnded k0 s0 (scan_loop u fuel highwater polls idle l s)
  unfolding scan_loop
  scan_loop-IsEnded k0 s0 zero highwater polls idle l s h = tt
  scan_loop-IsEnded k0 s0 (suc n) highwater polls idle l s h =
      if-cases (IsEnded k0 s0) (ltb idle polls)
        (λ on.
          follow-IsEnded k0 s0 (turn u idle highwater l s) (scan_loop u n highwater polls)
            (turn-IsTurn k0 s0 s idle highwater l h) (scan_loop-IsEnded k0 s0 n highwater polls))
        (λ off. h)
