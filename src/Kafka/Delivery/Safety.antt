-- ===== src/Kafka/Delivery/Safety.antt =====
-- No offset is committed before its record is released: acknowledged, or dropped by policy.
use agora_etl_plugins.Common.Dict
use agora_etl_plugins.Common.Dict.{All-put, All-remove}
use agora_etl_plugins.Common.{
  ℕ, ◌+◌, ◌≡◌, ◌⊎◌, inl, inr, refl, Bool, true, false, not, ◌&&◌, List, [], ◌∷◌, ◌++◌, map, All,
  All-append, All-map, In, In-append_right, arith, nat_eq, string_eq, pair_eq, if◌then◌else◌,
}
use agora_etl_plugins.Kafka.Cursor.{
  TopicPartition, Offsets, CursorState, is_empty, mark_delivered_message,
  mark_transaction_committed, clear_pending_commit_count, build_commit_offsets,
}
use agora_etl_plugins.Kafka.Poison.{Signal, returned, raised, Record}
use agora_etl_plugins.Kafka.Delivery.{
  Source, Request, offsets, positions, Delivery, Hook, request, commit_if_needed, send_commit,
  mark_delivered, calls_ack, calls_committed, deliver, ack, committed, call_hook, call_hooks,
  finish, clear_active_delivery,
}

-- One past the offset of a released record.
abbrev pub OnePast : List Record → Record → Type 0
OnePast released e = (o : ℕ) × (e.1 ≡ o + 1) × In (e.0, o) released

abbrev one_past : Offsets → Offsets
one_past d = map (λ e. (e.0, e.1 + 1)) d

-- A request is justified by released records if it names its offsets, and each is one past the
-- offset of a released record. `consumer.commit()` is justified by none.
abbrev pub Justified : List Record → Request → Type 0
Justified released positions = ⊥
Justified released (offsets d) = All (OnePast released) d

pub record Inv (released : List Record) (s : Source) : Type 0 where
  pub covered : All (λ e. In e released) s.cursor.committable_offsets
  pub scoped :
      (s.cursor.pending_commit_count ≡ 0)
      ⊎ (is_empty s.cursor.committable_offsets ≡ false)
      ⊎ (s.connected && not s.enable_auto_commit ≡ false)
  pub justified : All (Justified released) s.commits

Justified-grow :
    (released more : List Record) (q : Request)
    → Justified released q
    → Justified (more ++ released) q
Justified-grow released more (offsets d) h =
    All-map _ _ (λ e p. (p.0, p.1, In-append_right (e.0, p.0) more released p.2)) d h
Justified-grow released more positions h = h

built-Justified :
    (released : List Record) (d : Offsets)
    → All (λ e. In e released) d
    → All (OnePast released) (one_past d)
built-Justified released [] h = tt
built-Justified released ((tp, o) ∷ d) h = ((o, refl, h.0), built-Justified released d h.1)

request-Justified :
    (released : List Record) (c : CursorState)
    → All (λ e. In e released) c.committable_offsets
    → is_empty c.committable_offsets ≡ false
    → Justified released (request c)
unfolding build_commit_offsets
request-Justified released c h e = go c.committable_offsets h e
  where
    go :
        (d : Offsets)
        → All (λ e. In e released) d
        → is_empty d ≡ false
        → Justified released (if is_empty (one_past d) then positions else offsets (one_past d))
    go [] h e = cc
    go (x ∷ d) h e = built-Justified released (x ∷ d) h

module _ (accepts : ℕ → Bool) where
  send_commit-Inv :
      (released : List Record) (s : Source)
      → is_empty s.cursor.committable_offsets ≡ false
      → Inv released s
      → Inv released (send_commit accepts s).0
  unfolding send_commit clear_pending_commit_count
  send_commit-Inv released s full v = ground (
    arith,
    All-append (Justified released) s.commits (request s.cursor ∷ []) v.justified
        (request-Justified released s.cursor v.covered full, tt),
  )

  pub commit-Inv :
      (released : List Record) (force : Bool) (s : Source)
      → Inv released s
      → Inv released (commit_if_needed accepts force s).0
  unfolding commit_if_needed
  commit-Inv released force s v = ground (arith, send_commit-Inv released s)

-- More released records justify no less.
pub Inv-grow :
    (released more : List Record) (s : Source) → Inv released s → Inv (more ++ released) s
Inv-grow released more s v = record {
  covered = All-map _ _ (λ e. In-append_right e more released) _ v.covered;
  scoped = v.scoped;
  justified = All-map _ _ (λ q. Justified-grow released more q) _ v.justified;
}

pub not-empty-put : (tp : TopicPartition) (o : ℕ) (d : Offsets) → is_empty (Dict.put tp o d) ≡ false
unfolding Dict.put
not-empty-put tp o [] = refl
not-empty-put tp o ((k, p) ∷ d) = ground arith

-- A state of the source whose cursor has a released record to commit.
abbrev IsMarked : Record → Source → Source → Type 0
IsMarked r s s' =
    (s'.cursor.committable_offsets ≡ Dict.put r.0 r.1 s.cursor.committable_offsets)
    × (s'.commits ≡ s.commits)

marked-Inv :
    (released : List Record) (r : Record) (s s' : Source)
    → In r released
    → IsMarked r s s'
    → Inv released s
    → Inv released s'
marked-Inv released r s s' known m v = record {
  covered =
      rw m.0 (All-put (λ e. In e released) r.0 r.1 s.cursor.committable_offsets known v.covered);
  scoped = inr (inl (rw m.0 (not-empty-put r.0 r.1 s.cursor.committable_offsets)));
  justified = rw m.1 v.justified;
}

module _ (accepts : ℕ → Bool) (released : List Record) (r : Record) (known : In r released) where
  mark_delivered-Inv : (s : Source) → Inv released s → Inv released (mark_delivered accepts r s)
  unfolding mark_delivered mark_delivered_message
  mark_delivered-Inv s v =
      marked-Inv released r s (mark_delivered accepts r s) known (ground arith, ground arith) v

  pub deliver-Inv : (s : Source) → Inv released s → Inv released (deliver accepts r s).0
  unfolding deliver
  deliver-Inv s v =
      let marked = mark_delivered-Inv s v in
      ground (arith, marked, commit-Inv accepts released false (mark_delivered accepts r s) marked)

  call_hook-Inv :
      (h : Hook) (d : Delivery) (s : Source)
      → d.place ≡ r
      → Inv released s
      → Inv released (call_hook accepts h d s).1 × ((call_hook accepts h d s).0.place ≡ r)
  unfolding call_hook ack committed mark_transaction_committed
  call_hook-Inv calls_ack d s e v = ground (arith, deliver-Inv s v)
  call_hook-Inv calls_committed d s e v =
      (marked-Inv released r s (committed accepts d s).1 known (ground arith, refl) v, e)

  pub call_hooks-Inv :
      (hs : List Hook) (d : Delivery) (s : Source)
      → d.place ≡ r
      → Inv released s
      → Inv released (call_hooks accepts hs d s).1 × ((call_hooks accepts hs d s).0.place ≡ r)
  unfolding call_hooks
  call_hooks-Inv [] d s e v = (v, e)
  call_hooks-Inv (h ∷ hs) d s e v =
      let first = call_hook-Inv h d s e v in
      let d' = (call_hook accepts h d s).0 in
      let s' = (call_hook accepts h d s).1 in
      ground (arith, first, call_hooks-Inv hs d' s' first.1 first.0)

  clear-Inv : (s : Source) → Inv released s → Inv released (clear_active_delivery accepts s)
  unfolding clear_active_delivery
  clear-Inv s v = record { covered = v.covered; scoped = v.scoped; justified = v.justified }

  pub finish-Inv :
      (failed : Bool) (d : Delivery) (s : Source) (signal : Signal)
      → d.place ≡ r
      → Inv released s
      → Inv released (finish accepts failed (d, s, signal)).0
  unfolding finish ack
  finish-Inv failed d s raised e v = clear-Inv s v
  finish-Inv true d s returned e v = clear-Inv s v
  finish-Inv false d s returned e v =
      ground (arith, clear-Inv s v, deliver-Inv (clear_active_delivery accepts s) (clear-Inv s v))
