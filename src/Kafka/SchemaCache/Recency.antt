-- ===== src/Kafka/SchemaCache/Recency.antt =====
-- What a put leaves of the cache.
use agora_etl_plugins.Common.Dict
use agora_etl_plugins.Common.Dict.{Dict, Distinct}
use agora_etl_plugins.Common.{
  ℕ, zero, suc, ◌+◌, ◌-◌, ◌≤◌, ◌≡◌, refl, sym, ap, ◌∙◌, Option, none, some, List, [], ◌∷◌, ◌++◌,
  ltb, length, length-append, Eq, drop, drop-nil, length-drop, arith, if-cases, beq_refl,
  Bool-cases, inl, inr,
}
use agora_etl_plugins.Kafka.SchemaCache.{move_to_end, evict, lru_cache_put}

drop-append :
    {A : Type 0} (n : ℕ) (xs ys : List A) → n ≤ length xs → drop n (xs ++ ys) ≡ drop n xs ++ ys
drop-append zero xs ys h = refl
drop-append (suc n) [] ys h = let impossible : ⊥ = omega (arith, h) in elim impossible [ ]
drop-append (suc n) (x ∷ xs) ys h = drop-append n xs ys (omega (arith, h))

module _ {K V : Type 0} ⦃e : Eq K⦄ where
  remove-put : (k : K) (v : V) (d : Dict K V) → Dict.remove k (Dict.put k v d) ≡ Dict.remove k d
  unfolding Dict.remove Dict.put
  remove-put k v [] = ground (arith, beq_refl k)
  remove-put k v ((j, w) ∷ d) = ground (arith, remove-put k v d)

  remove_absent : (k : K) (d : Dict K V) → Dict.get k d ≡ none → Dict.remove k d ≡ d
  unfolding Dict.remove Dict.get
  remove_absent k [] h = refl
  remove_absent k ((j, w) ∷ d) h = ground (arith, h, remove_absent k d)

  length-remove :
      (k : K) (v : V) (d : Dict K V)
      → Distinct d
      → Dict.get k d ≡ some v
      → length (Dict.remove k d) + 1 ≡ length d
  unfolding Dict.remove Dict.get
  length-remove k v [] distinct h = cc
  length-remove k v ((j, w) ∷ d) distinct h = elim (Bool-cases (e.beq j k)) [
    | inl same ↦
        let gone : Dict.get k d ≡ none =
          ap (λ i. Dict.get i d) (sym ((e.beq_iff j k).0 same)) ∙ distinct.0 in
        rw same (ap (λ l. length l + 1) (remove_absent k d gone) ∙ omega arith)
    | inr other ↦ rw other (omega (arith, length-remove k v d distinct.1 (rw other at h)))
  ]

  evict-drop : (n : ℕ) (d : Dict K V) → evict n d ≡ drop (length d - n) d
  unfolding evict
  evict-drop n [] = sym (drop-nil (0 - n))
  evict-drop n (x ∷ d) =
      if-cases (λ l. l ≡ drop (length (x ∷ d) - n) (x ∷ d)) (ltb n (length (x ∷ d)))
        (λ full.
          let step : suc (length d - n) ≡ length (x ∷ d) - n = ground (arith, full) in
          evict-drop n d ∙ ap (λ k. drop k (x ∷ d)) step)
        (λ room.
          let none_over : 0 ≡ length (x ∷ d) - n = ground (arith, room) in
          ap (λ k. drop k (x ∷ d)) none_over)

  -- What stays before the new entry: all other entries, or where the key is new and the cache is
  -- full, all but the oldest.
  unfoldable pub others : K → ℕ → Dict K V → Option V → Dict K V
  others key bound cache none = drop (length cache + 1 - bound) cache
  others key bound cache (some v) = Dict.remove key cache

  put-others :
      (key : K) (value : V) (bound : ℕ) (cache : Dict K V) (found : Option V)
      → Dict.get key cache ≡ found
      → Distinct cache
      → 1 ≤ bound
      → length cache ≤ bound
      → (lru_cache_put key value bound cache ≡ others key bound cache found ++ ((key, value) ∷ []))
        × (length (others key bound cache found) + 1 ≤ bound)
  unfolding lru_cache_put move_to_end others
  put-others key value bound cache none absent distinct positive small =
      let new : Dict K V = (key, value) ∷ [] in
      let over : length (cache ++ new) - bound ≡ length cache + 1 - bound =
        omega (arith, length-append cache new) in
      (
        ap (λ d. evict bound (d ++ new))
              (remove-put key value cache ∙ remove_absent key cache absent)
            ∙ evict-drop bound (cache ++ new)
            ∙ ap (λ n. drop n (cache ++ new)) over
            ∙ drop-append (length cache + 1 - bound) cache new (omega (arith, positive, small)),
        omega (arith, length-drop (length cache + 1 - bound) cache, small, positive),
      )
  put-others key value bound cache (some v) present distinct positive small =
      let new : Dict K V = (key, value) ∷ [] in
      let rest = Dict.remove key cache in
      let count = length-remove key v cache distinct present in
      let over : length (rest ++ new) - bound ≡ 0 =
        omega (arith, length-append rest new, count, small) in
      (
        ap (λ d. evict bound (d ++ new)) (remove-put key value cache)
            ∙ evict-drop bound (rest ++ new)
            ∙ ap (λ n. drop n (rest ++ new)) over,
        omega (arith, count, small),
      )

  -- A put leaves the entry of its key as the newest. Before it stay all other entries in their
  -- order, except that the oldest one goes where the key is new and the cache was full. So the cache
  -- is never larger than its bound. This holds where the bound is at least 1, the cache is within it
  -- and no key stands twice.
  pub lru_cache_put-others :
      (key : K) (value : V) (bound : ℕ) (cache : Dict K V)
      → Distinct cache
      → 1 ≤ bound
      → length cache ≤ bound
      → (lru_cache_put key value bound cache
          ≡ others key bound cache (Dict.get key cache) ++ ((key, value) ∷ []))
        × (length (lru_cache_put key value bound cache) ≤ bound)
  lru_cache_put-others key value bound cache distinct positive small =
      let kept = others key bound cache (Dict.get key cache) in
      let new : Dict K V = (key, value) ∷ [] in
      let (same, fits) =
        put-others key value bound cache (Dict.get key cache) refl distinct positive small in
      (same, omega (arith, ap length same, length-append kept new, fits))
