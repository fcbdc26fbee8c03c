-- ===== src/Kafka/Scan/Scanned.antt =====
-- What scanning messages does: it feeds the compaction with the updates that they stand for.
use mathlib.Core.List.{append-nil, append_assoc}
use agora_etl_plugins.Common.{
  ℕ, suc, ◌+◌, ◌≡◌, refl, sym, ap, ◌∙◌, String, Bool, true, false, Option, none, some, List, [],
  ◌∷◌, ◌++◌, length, arith, length-append,
}
use native.Mathlib.Nat.{add-zero, zero-add}
use agora_etl_plugins.Common.Lists.{flatten}
use agora_etl_plugins.Kafka.Compaction
use agora_etl_plugins.Kafka.Compaction.{Codec, Table, State, initial, live_records}
use agora_etl_plugins.Kafka.Compaction.Latest.{Update, update_all}
use agora_etl_plugins.Kafka.Scan.{
  Loop, contents_of, is_delete, count_event, decoded, scan_message, and_then, scan_messages,
  scan_batches,
}
use agora_etl_plugins.Kafka.Scan.Assignment.{Setup, Source}

-- What the records are chosen by.
abbrev pub settings : {P M : Type 0} → Source P M → Option String × Option String × Option ℕ
settings k = (k.pipeline_id, k.stage, k.limit)

module _ {P M Rec Payload Text Db S : Type 0} (u : Setup P M Rec Payload Text Db S) where
  open u use {codec, table, client, decode_envelope}

  abbrev pub update_at : ℕ → Option (String × String × Option Rec) → List (Update Rec)
  update_at n none = []
  update_at n (some d) = record { sequence = n; storage_key = d.1; contents = contents_of d } ∷ []

  -- The updates that some messages stand for, numbered.
  unfoldable pub updates_of : ℕ → List M → List (Update Rec)
  updates_of n [] = []
  updates_of n (m ∷ messages) = update_at n (decode_envelope m) ++ updates_of (n + 1) messages

  updates_of-append :
      (n : ℕ) (xs : List M) (m : M)
      → updates_of n (xs ++ (m ∷ []))
        ≡ updates_of n xs ++ update_at (n + length xs) (decode_envelope m)
  unfolding updates_of
  updates_of-append n [] m = rw add-zero (append-nil (update_at n (decode_envelope m)))
  updates_of-append n (x ∷ xs) m =
      let next : n + 1 + length xs ≡ n + suc (length xs) = omega arith in
      ap (λ l. update_at n (decode_envelope x) ++ l) (updates_of-append (n + 1) xs m)
      ∙ sym (append_assoc (update_at n (decode_envelope x)) (updates_of (n + 1) xs) _)
      ∙ ap (λ k. updates_of n (x ∷ xs) ++ update_at k (decode_envelope m)) next

  update_all-append :
      (xs ys : List (Update Rec)) (s : State Rec Db)
      → update_all codec table (xs ++ ys) s
        ≡ update_all codec table ys (update_all codec table xs s)
  unfolding update_all
  update_all-append [] ys s = refl
  update_all-append (x ∷ xs) ys s = update_all-append xs ys _

  -- What the consumer delivers, poll by poll, wherever it is sent in between.
  pub data Delivers (s : S) : List M → S → Type 0 where
    nothing : Delivers s [] s
    polled :
        {s1 s2 : S} {messages : List M} (batches : List (List M))
        → Delivers s messages s1
        → client.getmany s1 ≡ some (s2, batches)
        → Delivers s (messages ++ flatten batches) s2
    sent :
        {s1 s2 : S} {messages : List M} (seek : P → ℕ → S → Option S) (p : P) (offset : ℕ)
        → Delivers s messages s1
        → client.seek ≡ some seek
        → seek p offset s1 ≡ some s2
        → Delivers s messages s2

  -- The messages that were waited for, and are not scanned yet.
  abbrev pub waiting : Source P M → List M
  waiting k = flatten (flatten k.assignment_prefetch_batches)

  -- The state of the compaction is that of the messages, which are counted.
  pub record IsScan (k0 : Source P M) (l : Loop P M Rec Db) : Type 0 where
    pub compacted :
        l.compaction
        ≡ update_all codec table (updates_of 0 l.messages) (initial k0.compaction_spill_threshold)
    pub numbered : l.sequence ≡ length l.messages
    pub chosen : settings l.source ≡ settings k0
    pub counts : l.source.scanned_message_count ≡ k0.scanned_message_count + length l.messages

  -- A scan of messages adds them to those that were scanned, and leaves those that wait.
  abbrev pub Scans :
      (k0 : Source P M) → List M → Loop P M Rec Db → Option (Loop P M Rec Db) → Type 0
  Scans k0 messages l none = Unit {0}
  Scans k0 messages l (some l') =
      IsScan k0 l'
      × (l'.messages ≡ l.messages ++ messages)
      × (l'.source.assignment_prefetch_batches ≡ l.source.assignment_prefetch_batches)

  count_event-count :
      (b : Bool) (k : Source P M)
      → (count_event u b k).scanned_message_count ≡ k.scanned_message_count + 1
  unfolding count_event
  count_event-count true k = refl
  count_event-count false k = refl

  count_event-settings : (b : Bool) (k : Source P M) → settings (count_event u b k) ≡ settings k
  unfolding count_event
  count_event-settings true k = refl
  count_event-settings false k = refl

  count_event-prefetch :
      (b : Bool) (k : Source P M)
      → (count_event u b k).assignment_prefetch_batches ≡ k.assignment_prefetch_batches
  unfolding count_event
  count_event-prefetch true k = refl
  count_event-prefetch false k = refl

  decoded-Scans :
      (k0 : Source P M) (m : M) (l : Loop P M Rec Db)
      → (o : Option (String × String × Option Rec)) → decode_envelope m ≡ o
      → IsScan k0 l
      → Scans k0 (m ∷ []) l (decoded u m l o)
  unfolding decoded update_all
  decoded-Scans k0 m l none h inv = tt
  decoded-Scans k0 m l (some d) h inv = (
    record {
      compacted =
          ap (λ c. Compaction.update codec table l.sequence d.1 (contents_of d) c) inv.compacted
          ∙ ap
              (λ n. Compaction.update codec table n d.1 (contents_of d) (
                update_all codec table (updates_of 0 l.messages)
                  (initial k0.compaction_spill_threshold)))
              inv.numbered
          ∙ sym (
              ap (λ us. update_all codec table us (initial k0.compaction_spill_threshold))
                (updates_of-append 0 l.messages m
                  ∙ ap (λ e. updates_of 0 l.messages ++ update_at (0 + length l.messages) e) h
                  ∙ ap (λ n. updates_of 0 l.messages ++ update_at n (some d))
                      (zero-add (length l.messages)))
              ∙ update_all-append (updates_of 0 l.messages) (update_at (length l.messages) (some d))
                  (initial k0.compaction_spill_threshold));
      numbered = omega (arith, inv.numbered, length-append l.messages (m ∷ []));
      chosen = count_event-settings (is_delete d.0) l.source ∙ inv.chosen;
      counts = omega (
        arith,
        inv.counts,
        count_event-count (is_delete d.0) l.source,
        length-append l.messages (m ∷ []),
      );
    },
    refl,
    count_event-prefetch (is_delete d.0) l.source,
  )

  joined :
      (k0 : Source P M) (xs ys : List M) (l l1 : Loop P M Rec Db)
      → (o : Option (Loop P M Rec Db)) → l1.messages ≡ l.messages ++ xs
      → l1.source.assignment_prefetch_batches ≡ l.source.assignment_prefetch_batches
      → Scans k0 ys l1 o
      → Scans k0 (xs ++ ys) l o
  joined k0 xs ys l l1 none added kept h = tt
  joined k0 xs ys l l1 (some l') added kept (inv, added', kept') =
      (inv, added' ∙ ap (λ ms. ms ++ ys) added ∙ append_assoc l.messages xs ys, kept' ∙ kept)

  and_then-Scans :
      (k0 : Source P M) (xs ys : List M) (l : Loop P M Rec Db)
      → (o : Option (Loop P M Rec Db)) (next : Loop P M Rec Db → Option (Loop P M Rec Db))
      → Scans k0 xs l o
      → ((l1 : Loop P M Rec Db) → IsScan k0 l1 → Scans k0 ys l1 (next l1))
      → Scans k0 (xs ++ ys) l (and_then o next)
  and_then-Scans k0 xs ys l none next h hs = tt
  and_then-Scans k0 xs ys l (some l1) next (inv, added, kept) hs =
      joined k0 xs ys l l1 (next l1) added kept (hs l1 inv)

  scan_messages-Scans :
      (k0 : Source P M) (messages : List M) (l : Loop P M Rec Db)
      → IsScan k0 l
      → Scans k0 messages l (scan_messages u messages l)
  unfolding scan_messages scan_message
  scan_messages-Scans k0 [] l h = (h, sym (append-nil l.messages), refl)
  scan_messages-Scans k0 (m ∷ messages) l h =
      and_then-Scans k0 (m ∷ []) messages l (scan_message u m l) (scan_messages u messages)
        (decoded-Scans k0 m l (decode_envelope m) refl h) (scan_messages-Scans k0 messages)

  pub scan_batches-Scans :
      (k0 : Source P M) (batches : List (List M)) (l : Loop P M Rec Db)
      → IsScan k0 l
      → Scans k0 (flatten batches) l (scan_batches u batches l)
  unfolding scan_batches flatten
  scan_batches-Scans k0 [] l h = (h, sym (append-nil l.messages), refl)
  scan_batches-Scans k0 (messages ∷ batches) l h =
      and_then-Scans k0 messages (flatten batches) l (scan_messages u messages l)
        (scan_batches u batches) (scan_messages-Scans k0 messages l h)
        (scan_batches-Scans k0 batches)
