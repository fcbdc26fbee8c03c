-- ===== src/Distributed/Workers/Listed.antt =====
-- The workers that are listed, whatever the pages and the batches are.
use mathlib.Core.List.{append-nil, append_assoc}
use agora_etl_plugins.Common.{
  ℕ, ◌≡◌, refl, sym, ap, ◌∙◌, String, Bool, true, false, Option, none, some, List, [], ◌∷◌, ◌++◌,
  if◌then◌else◌, leb, length, nat_beq, string_eq, arith, Bool-cases, inl, inr, map, ◌⊎◌, if-cases,
}
use agora_etl_plugins.Common.Sets.{has, add}
use agora_etl_plugins.Distributed.Workers.{
  Page, Listing, keep_worker, workers_of, fetch_worker_batch, fetch_if_full, add_key, add_keys,
  scan_pages, finish, list_workers,
}

-- The keys of the pages up to the one that ends the scan.
unfoldable pub scanned : List Page → List String
scanned [] = []
scanned (page ∷ pages) = page.keys ++ (if nat_beq page.cursor 0 then [] else scanned pages)

-- Each key once, where it comes first.
unfoldable pub once : List String → List String → List String
once seen [] = []
once seen (key ∷ keys) =
    let rest = once (add key seen) keys in if has key seen then rest else key ∷ rest

-- Some page ends the scan.
abbrev pub HasLastPage : List Page → Type 0
HasLastPage [] = ⊥
HasLastPage (page ∷ pages) = (page.cursor ≡ 0) ⊎ HasLastPage pages

seen_after : List String → List String → List String
seen_after seen [] = seen
seen_after seen (key ∷ keys) = seen_after (add key seen) keys

once-append :
    (seen xs ys : List String) → once seen (xs ++ ys) ≡ once seen xs ++ once (seen_after seen xs) ys
unfolding once seen_after
once-append seen [] ys = refl
once-append seen (key ∷ xs) ys = elim (Bool-cases (has key seen)) [
  | inl old ↦ rw old (once-append (add key seen) xs ys)
  | inr new ↦ rw new (ap (λ l. key ∷ l) (once-append (add key seen) xs ys))
]

ends_later :
    (page : Page) (pages : List Page)
    → nat_beq page.cursor 0 ≡ false
    → HasLastPage (page ∷ pages)
    → HasLastPage pages
ends_later page pages more (inl e) = absurd (ground (arith, e, more))
ends_later page pages more (inr h) = h

module _ {Raw W : Type 0} (mget : List String → List Raw) (worker_info_from_raw : Raw → Option W)
    (value : String → Raw) (mget_law : (keys : List String) → mget keys ≡ map value keys) where
  -- The workers at some keys, in their order; a value that is no worker is left out.
  abbrev pub workers_at : List String → List W
  workers_at keys = workers_of mget worker_info_from_raw (map value keys)

  keep_worker-append :
      (o : Option W) (xs ys : List W)
      → keep_worker mget worker_info_from_raw o (xs ++ ys)
        ≡ keep_worker mget worker_info_from_raw o xs ++ ys
  keep_worker-append none xs ys = refl
  keep_worker-append (some w) xs ys = refl

  workers_at-append : (xs ys : List String) → workers_at (xs ++ ys) ≡ workers_at xs ++ workers_at ys
  unfolding workers_of
  workers_at-append [] ys = refl
  workers_at-append (x ∷ xs) ys =
      ap (keep_worker mget worker_info_from_raw (worker_info_from_raw (value x)))
        (workers_at-append xs ys)
      ∙ keep_worker-append (worker_info_from_raw (value x)) (workers_at xs) (workers_at ys)

  fetched :
      (keys : List String) → fetch_worker_batch mget worker_info_from_raw keys ≡ workers_at keys
  unfolding fetch_worker_batch workers_of
  fetched [] = refl
  fetched (key ∷ keys) = rw mget_law

  -- The workers so far, those whose keys wait included.
  abbrev total : Listing W → List W
  total l = l.workers ++ workers_at l.pending_keys

  fetch_if_full-total :
      (size : ℕ) (l : Listing W)
      → (total (fetch_if_full mget worker_info_from_raw size l) ≡ total l)
        × ((fetch_if_full mget worker_info_from_raw size l).seen_keys ≡ l.seen_keys)
  unfolding fetch_if_full workers_of
  fetch_if_full-total size l =
      if-cases (λ l'. (total l' ≡ total l) × (l'.seen_keys ≡ l.seen_keys))
        (leb size (length l.pending_keys))
        (λ full.
          (append-nil (l.workers ++ _) ∙ ap (λ ws. l.workers ++ ws) (fetched l.pending_keys), refl))
        (λ more. (refl, refl))

  add_key-total :
      (size : ℕ) (key : String) (l : Listing W)
      → (total (add_key mget worker_info_from_raw size key l)
          ≡ total l ++ workers_at (if has key l.seen_keys then [] else key ∷ []))
        × ((add_key mget worker_info_from_raw size key l).seen_keys ≡ add key l.seen_keys)
  unfolding add_key add workers_of
  add_key-total size key l =
      if-cases
        (λ l'.
          (total l' ≡ total l ++ workers_at (if has key l.seen_keys then [] else key ∷ []))
          × (l'.seen_keys ≡ add key l.seen_keys))
        (has key l.seen_keys) (λ old. (rw old (sym (append-nil (total l))), rw old))
        (λ new.
          let l1 : Listing W = record l {
            seen_keys = add key l.seen_keys;
            pending_keys = l.pending_keys ++ (key ∷ []);
          } in
          let step = fetch_if_full-total size l1 in
          (
            step.0
                ∙ ap (λ ws. l.workers ++ ws) (workers_at-append l.pending_keys (key ∷ []))
                ∙ sym (append_assoc l.workers (workers_at l.pending_keys) (workers_at (key ∷ [])))
                ∙ ap (λ b. total l ++ workers_at (if b then [] else key ∷ [])) (sym new),
            step.1,
          ))

  once-cons :
      (b : Bool) (key : String) (rest : List String)
      → workers_at (if b then [] else key ∷ []) ++ workers_at rest
        ≡ workers_at (if b then rest else key ∷ rest)
  unfolding workers_of
  once-cons true key rest = refl
  once-cons false key rest = sym (workers_at-append (key ∷ []) rest)

  add_keys-total :
      (size : ℕ) (keys : List String) (l : Listing W)
      → (total (add_keys mget worker_info_from_raw size keys l)
          ≡ total l ++ workers_at (once l.seen_keys keys))
        × ((add_keys mget worker_info_from_raw size keys l).seen_keys ≡ seen_after l.seen_keys keys)
  unfolding add_keys once seen_after workers_of
  add_keys-total size [] l = (sym (append-nil (total l)), refl)
  add_keys-total size (key ∷ keys) l =
      let l1 = add_key mget worker_info_from_raw size key l in
      let step = add_key-total size key l in
      let rest = add_keys-total size keys l1 in
      let later = once (add key l.seen_keys) keys in
      (
        rest.0
            ∙ ap (λ s. total l1 ++ workers_at (once s keys)) step.1
            ∙ ap (λ ws. ws ++ workers_at later) step.0
            ∙ append_assoc (total l) (workers_at (if has key l.seen_keys then [] else key ∷ []))
                (workers_at later)
            ∙ ap (λ ws. total l ++ ws) (once-cons (has key l.seen_keys) key later),
        rest.1 ∙ ap (λ s. seen_after s keys) step.1,
      )

  abbrev later : Listing W → Page → List Page → List String
  later l page pages = once (seen_after l.seen_keys page.keys) (scanned pages)

  scan_pages-total :
      (size : ℕ) (pages : List Page) (l : Listing W)
      → HasLastPage pages
      → finish mget worker_info_from_raw (scan_pages mget worker_info_from_raw size pages l)
        ≡ some (total l ++ workers_at (once l.seen_keys (scanned pages)))
  unfolding scan_pages scanned finish
  scan_pages-total size [] l ends = elim ends [ ]
  scan_pages-total size (page ∷ pages) l ends =
      let l1 = add_keys mget worker_info_from_raw size page.keys l in
      let step = add_keys-total size page.keys l in
      elim (Bool-cases (nat_beq page.cursor 0)) [
        | inl final ↦ rw final (
            ap some (
              ap (λ ws. l1.workers ++ ws) (fetched l1.pending_keys)
              ∙ step.0
              ∙ ap (λ keys. total l ++ workers_at (once l.seen_keys keys))
                  (sym (append-nil page.keys))))
        | inr more ↦ rw more (
            scan_pages-total size pages l1 (ends_later page pages more ends)
            ∙ ap some (
                ap (λ s. total l1 ++ workers_at (once s (scanned pages))) step.1
                ∙ ap (λ ws. ws ++ workers_at (later l page pages)) step.0
                ∙ append_assoc (total l) (workers_at (once l.seen_keys page.keys))
                    (workers_at (later l page pages))
                ∙ ap (λ ws. total l ++ ws)
                    (sym (workers_at-append (once l.seen_keys page.keys) (later l page pages))
                      ∙ ap workers_at (sym (once-append l.seen_keys page.keys (scanned pages))))))
      ]

  -- A scan that ends gives the worker of each key that it found once, in the order in which the keys
  -- came first: pages that overlap or are empty, and the size of the batches in which the values are
  -- fetched, make no difference, and a value that is no worker is left out.
  pub list_workers-eq :
      (size : ℕ) (pages : List Page)
      → HasLastPage pages
      → list_workers mget worker_info_from_raw true size pages
        ≡ some (workers_at (once [] (scanned pages)))
  unfolding list_workers workers_of
  list_workers-eq size pages ends =
      scan_pages-total size pages (record { seen_keys = []; pending_keys = []; workers = [] }) ends
