-- ===== src/Common/Sets.antt =====
-- Python's `set` as a list whose order does not matter: what a set holds is read by `has`.
use mathlib.Core.Path.{◌≡◌, refl}
use mathlib.Core.Bool.{Bool, true, false, not, ◌&&◌, ◌||◌}
use mathlib.Core.List.{List, [], ◌∷◌, ◌++◌}
use native.Mathlib.Omega.{arith}
use agora_etl_plugins.Common.Keys.{Eq, beq_refl}
use agora_etl_plugins.Common.Sort.{insert, sort}
use agora_etl_plugins.Common.Tests.{if◌then◌else◌}

abbrev pub is_nil {ℓ} : {A : Type ℓ} → List A → Bool
is_nil [] = true
is_nil (x ∷ xs) = false

pub is_nil→≡ {ℓ} : {A : Type ℓ} (l : List A) → is_nil l ≡ true → l ≡ []
is_nil→≡ [] e = refl
is_nil→≡ (x ∷ l) e = cc

module _ {ℓ} {K : Type ℓ} ⦃e : Eq K⦄ where
  -- `k in s`
  unfoldable pub has : K → List K → Bool
  has k [] = false
  has k (j ∷ s) = e.beq j k || has k s

  -- `s.add(k)`
  unfoldable pub add : K → List K → List K
  add k s = if has k s then s else k ∷ s

  -- `set(items)`
  unfoldable pub set_of : List K → List K
  set_of [] = []
  set_of (k ∷ items) = add k (set_of items)

  -- `s | t`, `s.update(t)`
  unfoldable pub union : List K → List K → List K
  union s [] = s
  union s (k ∷ t) = add k (union s t)

  -- `s - t`, `s.difference_update(t)`
  unfoldable pub difference : List K → List K → List K
  difference [] t = []
  difference (k ∷ s) t = let rest = difference s t in if has k t then rest else k ∷ rest

  -- `s & t`
  unfoldable pub intersection : List K → List K → List K
  intersection [] t = []
  intersection (k ∷ s) t = let rest = intersection s t in if has k t then k ∷ rest else rest

  unfoldable pub is_subset : List K → List K → Bool
  is_subset [] t = true
  is_subset (k ∷ s) t = has k t && is_subset s t

  -- `s == t`
  unfoldable pub same_set : List K → List K → Bool
  same_set s t = is_subset s t && is_subset t s

  pub has-add : (j k : K) (s : List K) → has j (add k s) ≡ (e.beq k j || has j s)
  unfolding has add
  has-add j k s = ground (arith, e.beq_iff k j)

  pub has-set_of : (j : K) (items : List K) → has j (set_of items) ≡ has j items
  unfolding has set_of
  has-set_of j [] = refl
  has-set_of j (k ∷ items) = ground (arith, has-add j k (set_of items), has-set_of j items)

  pub has-union : (j : K) (s t : List K) → has j (union s t) ≡ (has j t || has j s)
  unfolding has union
  has-union j s [] = refl
  has-union j s (k ∷ t) = ground (arith, has-add j k (union s t), has-union j s t)

  pub has-difference : (j : K) (s t : List K) → has j (difference s t) ≡ (has j s && not (has j t))
  unfolding has difference
  has-difference j [] t = refl
  has-difference j (k ∷ s) t = ground (arith, has-difference j s t, e.beq_iff k j)

  pub has-intersection : (j : K) (s t : List K) → has j (intersection s t) ≡ (has j s && has j t)
  unfolding has intersection
  has-intersection j [] t = refl
  has-intersection j (k ∷ s) t = ground (arith, has-intersection j s t, e.beq_iff k j)

  pub has-insert :
      (leq : K → K → Bool) (j k : K) (s : List K) → has j (insert leq k s) ≡ (e.beq k j || has j s)
  unfolding has insert
  has-insert leq j k [] = refl
  has-insert leq j k (i ∷ s) = ground (arith, has-insert leq j k s)

  pub has-sort : (leq : K → K → Bool) (j : K) (s : List K) → has j (sort leq s) ≡ has j s
  unfolding has sort
  has-sort leq j [] = refl
  has-sort leq j (k ∷ s) = ground (arith, has-insert leq j k (sort leq s), has-sort leq j s)

  pub has-is_subset :
      (j : K) (s t : List K) → is_subset s t ≡ true → has j s ≡ true → has j t ≡ true
  unfolding has is_subset
  has-is_subset j [] t h i = cc
  has-is_subset j (k ∷ s) t h i = ground (arith, has-is_subset j s t, e.beq_iff k j)

  pub is_nil→has : (s : List K) (k : K) → is_nil s ≡ true → has k s ≡ false
  unfolding has
  is_nil→has [] k h = refl
  is_nil→has (j ∷ s) k h = cc

  pub has-append : (j : K) (s t : List K) → has j (s ++ t) ≡ (has j s || has j t)
  unfolding has
  has-append j [] t = refl
  has-append j (k ∷ s) t = ground (arith, has-append j s t)

  pub is_subset-intro :
      (s t : List K) → ((j : K) → has j s ≡ true → has j t ≡ true) → is_subset s t ≡ true
  unfolding is_subset has
  is_subset-intro [] t h = refl
  is_subset-intro (k ∷ s) t h =
      rw (h k (rw (beq_refl k)), is_subset-intro s t (λ j i. h j (ground (arith, i))))
