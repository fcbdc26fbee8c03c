-- ===== src/RedisStream/Reclaim/Fair.antt =====
-- Reclaimed messages do not keep a source from its stream.
use agora_etl_plugins.Common.{
  ℕ, zero, suc, ◌+◌, ◌<◌, ◌≤◌, ◌≡◌, refl, sym, ap, subst, ◌∙◌, false, not, ◌||◌, some, List, [],
  ◌∷◌, ltb, length, arith, if-cases, inl, inr, ◌⊎◌,
}
use agora_etl_plugins.Kafka.Poison.{Signal, returned, raised}
use agora_etl_plugins.RedisStream.Reclaim.{
  Reader, Claim, no_such_method, response, claim_recovered, claim_raises, Read, entries,
  read_recovered, read_raises, Answers, reset, below, bounded_by, should_read_reclaimed_messages,
  after_claim, read_reclaimed_messages, after_read, read_entries, or_read, reclaim_or_read, turn,
  follow, turns, is_none,
}

-- The configuration under which the bound counts.
abbrev IsBounded : ℕ → Reader → Type 0
IsBounded bound r =
    (r.max_consecutive_reclaim_batches ≡ some bound)
    × (is_none r.reclaim_idle_ms ≡ false)
    × (r.resume_pending ≡ false)

-- A turn reads the stream, or it reclaims one more batch, which the bound allows.
abbrev IsTurn : ℕ → Reader → Reader → Type 0
IsTurn bound r r' =
    (r.read_call_count < r'.read_call_count)
    ⊎ ((r'.read_call_count ≡ r.read_call_count)
        × (r'.consecutive_reclaim_batch_count ≡ r.consecutive_reclaim_batch_count + 1)
        × (r.consecutive_reclaim_batch_count < bound))

zero_or_suc {ℓ} : {A : Type ℓ} (n : ℕ) → 0 ≡ suc n → A
zero_or_suc n e = let impossible : ⊥ = omega (arith, e) in elim impossible [ ]

after_read-IsBounded :
    (bound : ℕ) (read : Read) (r : Reader)
    → IsBounded bound r
    → ((after_read read r).0.read_call_count ≡ r.read_call_count)
      × IsBounded bound (after_read read r).0
unfolding after_read
after_read-IsBounded bound read_recovered r b = (refl, b)
after_read-IsBounded bound read_raises r b = (refl, b)
after_read-IsBounded bound (entries zero) r b = (refl, (b.0, b.1, refl))
after_read-IsBounded bound (entries (suc n)) r b = (refl, b)

-- What is known after a turn that returns.
abbrev IsFine : ℕ → Reader → Reader × Signal → Type 0
IsFine bound r0 (r, signal) = signal ≡ returned → IsTurn bound r0 r × IsBounded bound r

read_entries-IsFine :
    (bound : ℕ) (read : Read) (r0 r : Reader)
    → IsBounded bound r
    → r.read_call_count ≡ r0.read_call_count
    → IsFine bound r0 (read_entries read r)
unfolding read_entries
read_entries-IsFine bound read r0 r b same =
    if-cases (IsFine bound r0) r.connected
      (λ up h.
        let r' : Reader = record r { read_call_count = r.read_call_count + 1 } in
        let (count, kept) = after_read-IsBounded bound read r' b in
        (inl (omega (arith, count, same)), kept))
      (λ down h. cc)

or_read-IsFine :
    (bound : ℕ) (read : Read) (r0 : Reader) (x : Reader × ℕ × Signal)
    → (x.1 ≡ 0 → (x.0.read_call_count ≡ r0.read_call_count) × IsBounded bound x.0)
    → ((n : ℕ) → x.1 ≡ suc n → x.2 ≡ returned → IsTurn bound r0 x.0 × IsBounded bound x.0)
    → IsFine bound r0 (or_read read x)
unfolding or_read
or_read-IsFine bound read r0 (r, n, raised) none_read some_read h = cc
or_read-IsFine bound read r0 (r, zero, returned) none_read some_read h =
    let (same, b) = none_read refl in read_entries-IsFine bound read r0 r b same h
or_read-IsFine bound read r0 (r, suc n, returned) none_read some_read h = some_read n refl refl

-- A read of reclaimed messages that the bound allows.
after_claim-IsFine :
    (bound : ℕ) (claim : Claim) (read : Read) (r : Reader)
    → IsBounded bound r
    → r.consecutive_reclaim_batch_count < bound
    → IsFine bound r (or_read read (after_claim claim r))
unfolding after_claim
after_claim-IsFine bound no_such_method read r b below_bound =
    or_read-IsFine bound read r (reset r, 0, returned) (λ e. (refl, b)) (λ n e h. zero_or_suc n e)
after_claim-IsFine bound claim_recovered read r b below_bound =
    or_read-IsFine bound read r (reset r, 0, returned) (λ e. (refl, b)) (λ n e h. zero_or_suc n e)
after_claim-IsFine bound claim_raises read r b below_bound =
    or_read-IsFine bound read r (r, 0, raised) (λ e. (refl, b)) (λ n e h. zero_or_suc n e)
after_claim-IsFine bound (response cursor zero) read r b below_bound =
    or_read-IsFine bound read r (record (reset r) { reclaim_cursor = cursor }, 0, returned)
      (λ e. (refl, b)) (λ n e h. zero_or_suc n e)
after_claim-IsFine bound (response cursor (suc m)) read r b below_bound =
    or_read-IsFine bound read r (after_claim (response cursor (suc m)) r)
      (λ e. zero_or_suc m (sym e)) (λ n e h. (inr (refl, refl, below_bound), b))

read_reclaimed-IsFine :
    (bound : ℕ) (claim : Claim) (read : Read) (r : Reader)
    → IsBounded bound r
    → r.consecutive_reclaim_batch_count < bound
    → IsFine bound r (or_read read (read_reclaimed_messages claim r))
unfolding read_reclaimed_messages
read_reclaimed-IsFine bound claim read r b below_bound =
    if-cases (λ x. IsFine bound r (or_read read x))
      (not r.connected || is_none r.reclaim_idle_ms || r.resume_pending)
      (λ e.
        or_read-IsFine bound read r (reset r, 0, returned) (λ e. (refl, b))
          (λ n e h. zero_or_suc n e))
      (λ e. after_claim-IsFine bound claim read r b below_bound)

below-IsFine :
    (bound : ℕ) (answers : Answers) (r : Reader)
    → IsBounded bound r
    → IsFine bound r (reclaim_or_read answers (below bound r))
unfolding below reclaim_or_read
below-IsFine bound answers r b =
    if-cases (λ x. IsFine bound r (reclaim_or_read answers x))
      (is_none r.reclaim_idle_ms || r.resume_pending) (λ e. zero_or_suc 0 (ground (arith, e, b)))
      (λ e.
        if-cases (λ x. IsFine bound r (reclaim_or_read answers x))
          (ltb r.consecutive_reclaim_batch_count bound)
          (λ e. read_reclaimed-IsFine bound answers.claim answers.read r b (ground (arith, e)))
          (λ e. read_entries-IsFine bound answers.read r _ b refl))

turn-IsFine :
    (bound : ℕ) (answers : Answers) (r : Reader)
    → IsBounded bound r
    → IsFine bound r (turn answers r)
unfolding turn should_read_reclaimed_messages bounded_by
turn-IsFine bound answers r b =
    subst (λ m. IsFine bound r (reclaim_or_read answers (bounded_by m r))) (sym b.0)
      (below-IsFine bound answers r b)

follow-returned :
    (x : Reader × Signal) (next : Reader → Reader × Signal)
    → (follow x next).1 ≡ returned
    → (x.1 ≡ returned) × (follow x next ≡ next x.0)
unfolding follow
follow-returned (r, returned) next h = (refl, refl)
follow-returned (r, raised) next h = cc

-- The reads are counted up, and a long sequence of turns has one.
turns-count :
    (bound : ℕ) (answers : List Answers) (r : Reader)
    → IsBounded bound r
    → (turns answers r).1 ≡ returned
    → (r.read_call_count ≤ (turns answers r).0.read_call_count)
      × (r.consecutive_reclaim_batch_count ≤ bound
          → bound < length answers + r.consecutive_reclaim_batch_count
          → r.read_call_count < (turns answers r).0.read_call_count)
unfolding turns
turns-count bound [] r b h = (omega arith, λ kept long. omega (arith, kept, long))
turns-count bound (answers ∷ rest) r b h =
    let (first, same) = follow-returned (turn answers r) (turns rest) h in
    let r' = (turn answers r).0 in
    let (step, b') = turn-IsFine bound answers r b first in
    let later = turns-count bound rest r' b' (sym (ap (λ (x : Reader × Signal). x.1) same) ∙ h) in
    subst
      (λ (x : Reader × Signal).
        (r.read_call_count ≤ x.0.read_call_count)
        × (r.consecutive_reclaim_batch_count ≤ bound
            → bound < length (answers ∷ rest) + r.consecutive_reclaim_batch_count
            → r.read_call_count < x.0.read_call_count))
      (sym same)
      (elim step [
        | inl read ↦ (omega (arith, read, later.0), λ kept long. omega (arith, read, later.0))
        | inr (equal, count, allowed) ↦ (
          omega (arith, equal, later.0),
          λ kept long.
              let more = later.1 (omega (arith, count, allowed)) (omega (arith, count, long)) in
              omega (arith, equal, more),
        )
      ])

-- However many messages wait to be reclaimed, in more turns than the bound on consecutive batches
-- allows the source reads its stream at least once. This holds where a bound is set and messages are
-- reclaimed at all, no turn raises, and the count of the batches is within the bound.
pub turns-read :
    (bound : ℕ) (answers : List Answers) (r : Reader)
    → r.max_consecutive_reclaim_batches ≡ some bound
    → is_none r.reclaim_idle_ms ≡ false
    → r.resume_pending ≡ false
    → r.consecutive_reclaim_batch_count ≤ bound
    → bound < length answers
    → (turns answers r).1 ≡ returned
    → r.read_call_count < (turns answers r).0.read_call_count
turns-read bound answers r max idle fresh kept long h =
    (turns-count bound answers r (max, idle, fresh) h).1 kept (omega (arith, long))
