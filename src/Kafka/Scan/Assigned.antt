-- ===== src/Kafka/Scan/Assigned.antt =====
-- What happens before the loop of a scan: nothing is scanned, and no message is lost.
use mathlib.Core.List.{append-nil}
use agora_etl_plugins.Common.{
  ℕ, zero, suc, ◌+◌, ◌≡◌, refl, sym, ap, ◌∙◌, subst, Option, none, some, List, [], ◌∷◌, ◌++◌,
  if-cases,
}
use agora_etl_plugins.Common.Dict.{Dict}
use agora_etl_plugins.Common.Lists.{flatten, flatten-append}
use agora_etl_plugins.Common.Sets.{is_nil}
use agora_etl_plugins.Common.Sort.{sort}
use agora_etl_plugins.Kafka.Scan.Assignment.{
  Setup, Source, with_prefetch, waited, wait_turns, wait_for_assignment, sought, seek_each,
  seek_with, apply_start_offsets,
}
use agora_etl_plugins.Kafka.Scan.Scanned.{settings, Delivers, nothing, polled, sent, waiting}

module _ {P M Rec Payload Text Db S : Type 0} (u : Setup P M Rec Payload Text Db S) where
  open u use {client}

  -- What stays as it was set up.
  pub record Untouched (k0 k : Source P M) : Type 0 where
    pub chosen : settings k ≡ settings k0
    pub threshold : k.compaction_spill_threshold ≡ k0.compaction_spill_threshold
    pub counts : k.scanned_message_count ≡ k0.scanned_message_count

  -- The consumer has delivered what waits, and the source is set up as before.
  abbrev pub IsSetUp : Source P M → S → Source P M → S → Type 0
  IsSetUp k0 s0 k s = Delivers u s0 (waiting u k) s × Untouched k0 k

  with_prefetch-IsSetUp :
      (k0 k : Source P M) (s0 s s' : S) (batches : List (List M))
      → client.getmany s ≡ some (s', batches)
      → IsSetUp k0 s0 k s
      → IsSetUp k0 s0 (with_prefetch u batches k) s'
  unfolding with_prefetch flatten
  with_prefetch-IsSetUp k0 k s0 s s' [] h (delivered, same) =
      (subst (λ ms. Delivers u s0 ms s') (append-nil (waiting u k)) (polled [] delivered h), same)
  with_prefetch-IsSetUp k0 k s0 s s' (b ∷ batches) h (delivered, same) = (
    subst (λ ms. Delivers u s0 ms s')
        (sym (
          ap flatten (flatten-append k.assignment_prefetch_batches ((b ∷ batches) ∷ []))
          ∙ flatten-append (flatten k.assignment_prefetch_batches) ((b ∷ batches) ++ [])
          ∙ ap (λ bs. waiting u k ++ flatten bs) (append-nil (b ∷ batches))))
        (polled (b ∷ batches) delivered h),
    record { chosen = same.chosen; threshold = same.threshold; counts = same.counts },
  )

  abbrev pub IsWaited : Source P M → S → Option (Source P M × S × List P) → Type 0
  IsWaited k0 s0 none = Unit {0}
  IsWaited k0 s0 (some (k, s, assignment)) = IsSetUp k0 s0 k s

  waited-IsWaited :
      (k0 k : Source P M) (s0 s : S) (o : Option (S × List (List M)))
      → (next : Source P M → S → Option (Source P M × S × List P)) → client.getmany s ≡ o
      → IsSetUp k0 s0 k s
      → ((k' : Source P M) (s' : S) → IsSetUp k0 s0 k' s' → IsWaited k0 s0 (next k' s'))
      → IsWaited k0 s0 (waited u k o next)
  unfolding waited
  waited-IsWaited k0 k s0 s none next h inv hs = tt
  waited-IsWaited k0 k s0 s (some (s', batches)) next h inv hs =
      hs (with_prefetch u batches k) s' (with_prefetch-IsSetUp k0 k s0 s s' batches h inv)

  wait_turns-IsWaited :
      (n : ℕ) (k0 k : Source P M) (s0 s : S)
      → IsSetUp k0 s0 k s
      → IsWaited k0 s0 (wait_turns u n k s)
  unfolding wait_turns
  wait_turns-IsWaited zero k0 k s0 s inv = inv
  wait_turns-IsWaited (suc n) k0 k s0 s inv =
      if-cases (IsWaited k0 s0) (is_nil (client.assignment s))
        (λ no.
          waited-IsWaited k0 k s0 s (client.getmany s) (wait_turns u n) refl inv
            (λ k' s' h. wait_turns-IsWaited n k0 k' s0 s' h))
        (λ yes'. inv)

  abbrev pub IsSought : Source P M → S → Option (Source P M × S) → Type 0
  IsSought k0 s0 none = Unit {0}
  IsSought k0 s0 (some (k, s)) = IsSetUp k0 s0 k s

  sought-IsSought :
      (k0 k : Source P M) (s0 s : S) (seek : P → ℕ → S → Option S) (p : P) (offset : ℕ)
      → client.seek ≡ some seek
      → (o : Option S) → seek p offset s ≡ o
      → (next : S → Option (Source P M × S)) → IsSetUp k0 s0 k s
      → ((s' : S) → IsSetUp k0 s0 k s' → IsSought k0 s0 (next s'))
      → IsSought k0 s0 (sought u o next)
  unfolding sought
  sought-IsSought k0 k s0 s seek p offset c none h next inv hs = tt
  sought-IsSought k0 k s0 s seek p offset c (some s') h next (delivered, same) hs =
      hs s' (sent seek p offset delivered c h, same)

  seek_each-IsSought :
      (k0 k : Source P M) (s0 s : S) (seek : P → ℕ → S → Option S) (offsets : Dict P ℕ)
      → client.seek ≡ some seek
      → IsSetUp k0 s0 k s
      → IsSought k0 s0 (seek_each u seek offsets k s)
  unfolding seek_each
  seek_each-IsSought k0 k s0 s seek [] c inv = inv
  seek_each-IsSought k0 k s0 s seek ((p, offset) ∷ offsets) c inv =
      sought-IsSought k0 k s0 s seek p offset c (seek p offset s) refl _ inv (λ s' h.
        seek_each-IsSought k0 (record k { start_offset_seek_count = k.start_offset_seek_count + 1 })
          s0 s' seek offsets c
          (h.0, record { chosen = h.1.chosen; threshold = h.1.threshold; counts = h.1.counts }))

  seek_with-IsSought :
      (k0 k : Source P M) (s0 s : S) (o : Option (P → ℕ → S → Option S))
      → client.seek ≡ o
      → IsSetUp k0 s0 k s
      → IsSought k0 s0 (seek_with u o k s)
  unfolding seek_with
  seek_with-IsSought k0 k s0 s none c inv = inv
  seek_with-IsSought k0 k s0 s (some seek) c inv =
      seek_each-IsSought k0 k s0 s seek (sort u.place_leb k.start_offsets) c inv

  pub wait_for_assignment-IsWaited :
      (k : Source P M) (s : S) → IsWaited k s (wait_for_assignment u k s)
  unfolding wait_for_assignment flatten
  wait_for_assignment-IsWaited k s =
      wait_turns-IsWaited 20 k (record k { assignment_prefetch_batches = [] }) s s
        (nothing, record { chosen = refl; threshold = refl; counts = refl })

  pub apply_start_offsets-IsSought :
      (k0 k : Source P M) (s0 s : S)
      → IsSetUp k0 s0 k s
      → IsSought k0 s0 (apply_start_offsets u k s)
  unfolding apply_start_offsets
  apply_start_offsets-IsSought k0 k s0 s inv =
      if-cases (IsSought k0 s0) (is_nil k.start_offsets) (λ none_given. inv)
        (λ given. seek_with-IsSought k0 k s0 s client.seek refl inv)
