-- ===== src/Common/Dict.antt =====
-- Python's `dict` as an association list in insertion order: a key that is written again keeps
-- its place, a new key goes to the end.
use mathlib.Core.Path.{◌≡◌, refl, sym, subst, ◌∙◌}
use mathlib.Core.Bool.{Bool, false}
use mathlib.Core.Option
use mathlib.Core.Option.{Option, none, some}
use mathlib.Core.List.{List, [], ◌∷◌, map}
use mathlib.Core.Logic.{inl, inr}
use native.Mathlib.Omega.{arith}
use agora_etl_plugins.Common.Lists.{All}
use agora_etl_plugins.Common.Sort.{insert, sort}
use agora_etl_plugins.Common.Tests.{if◌then◌else◌, Bool-cases}
use agora_etl_plugins.Common.Keys.{Eq, beq_refl}

abbrev pub Dict {ℓ κ} : Type ℓ → Type κ → Type (ℓ ⊔ κ)
Dict K V = List (K × V)

abbrev pub or_else {ℓ} : {A : Type ℓ} → Option A → Option A → Option A
or_else none b = b
or_else (some a) b = some a

module _ {ℓ κ} {K : Type ℓ} {V : Type κ} ⦃e : Eq K⦄ where
  -- `d.get(k)`
  unfoldable pub get : K → Dict K V → Option V
  get k [] = none
  get k ((j, v) ∷ d) = if e.beq j k then some v else get k d

  -- `d[k] = v`
  unfoldable pub put : K → V → Dict K V → Dict K V
  put k v [] = (k, v) ∷ []
  put k v ((j, w) ∷ d) = if e.beq j k then (j, v) ∷ d else (j, w) ∷ put k v d

  -- `d.pop(k, None)`, without its result
  unfoldable pub remove : K → Dict K V → Dict K V
  remove k [] = []
  remove k ((j, w) ∷ d) = let rest = remove k d in if e.beq j k then rest else (j, w) ∷ rest

  pub get-put :
      (k j : K) (v : V) (d : Dict K V) → get j (put k v d) ≡ (if e.beq k j then some v else get j d)
  unfolding get put
  get-put k j v [] = refl
  get-put k j v ((i, w) ∷ d) =
      ground (arith, e.beq_iff k j, e.beq_iff i k, e.beq_iff i j, get-put k j v d)

  pub get-remove :
      (k j : K) (d : Dict K V) → get j (remove k d) ≡ (if e.beq k j then none else get j d)
  unfolding get remove
  get-remove k j [] = ground arith
  get-remove k j ((i, w) ∷ d) =
      ground (arith, e.beq_iff k j, e.beq_iff i k, e.beq_iff i j, get-remove k j d)

  pub get-put_self : (k : K) (v : V) (d : Dict K V) → get k (put k v d) ≡ some v
  get-put_self k v d = ground (arith, get-put k k v d, beq_refl k)

  pub get-remove_self : (k : K) (d : Dict K V) → get k (remove k d) ≡ none
  get-remove_self k d = ground (arith, get-remove k k d, beq_refl k)

  -- No key stands twice: so it is in every `dict`.
  abbrev pub Distinct : Dict K V → Type κ
  Distinct [] = Unit
  Distinct ((k, v) ∷ d) = (get k d ≡ none) × Distinct d

  pub put-Distinct : (k : K) (v : V) (d : Dict K V) → Distinct d → Distinct (put k v d)
  unfolding get put
  put-Distinct k v [] h = (refl, tt)
  put-Distinct k v ((i, w) ∷ d) h =
      ground (arith, get-put k i v d, put-Distinct k v d h.1, e.beq_iff i k, e.beq_iff k i)

  pub remove-Distinct : (k : K) (d : Dict K V) → Distinct d → Distinct (remove k d)
  unfolding get remove
  remove-Distinct k [] h = tt
  remove-Distinct k ((i, w) ∷ d) h = ground (arith, get-remove k i d, remove-Distinct k d h.1)

  -- Sorting the items of a dictionary does not change what it holds.
  get-insert :
      (leq : K × V → K × V → Bool) (j k : K) (v : V) (d : Dict K V)
      → get j d ≡ none
      → get k (insert leq (j, v) d) ≡ (if e.beq j k then some v else get k d)
  unfolding get insert
  get-insert leq j k v [] h = refl
  get-insert leq j k v ((i, w) ∷ d) h =
      ground (arith, get-insert leq j k v d, e.beq_iff i j, e.beq_iff i k, e.beq_iff j k)

  pub get-sort :
      (leq : K × V → K × V → Bool) (k : K) (d : Dict K V)
      → Distinct d
      → get k (sort leq d) ≡ get k d
  unfolding get sort
  get-sort leq k [] h = refl
  get-sort leq k ((j, v) ∷ d) h =
      rw (get-insert leq j k v (sort leq d) (get-sort leq j d h.1 ∙ h.0))
        (ground (arith, get-sort leq k d h.1))

  insert-Distinct :
      (leq : K × V → K × V → Bool) (k : K) (v : V) (d : Dict K V)
      → get k d ≡ none
      → Distinct d
      → Distinct (insert leq (k, v) d)
  unfolding get insert
  insert-Distinct leq k v [] new h = (refl, tt)
  insert-Distinct leq k v ((i, w) ∷ d) new h =
      ground
        (arith, insert-Distinct leq k v d, get-insert leq k i v d, e.beq_iff i k, e.beq_iff k i, h)

  pub sort-Distinct :
      (leq : K × V → K × V → Bool) (d : Dict K V) → Distinct d → Distinct (sort leq d)
  unfolding sort
  sort-Distinct leq [] h = tt
  sort-Distinct leq ((k, v) ∷ d) h =
      insert-Distinct leq k v (sort leq d) (get-sort leq k d h.1 ∙ h.0) (sort-Distinct leq d h.1)

  -- `for k, v in items: d[k] = v`
  unfoldable pub put_all : List (K × V) → Dict K V → Dict K V
  put_all [] d = d
  put_all ((k, v) ∷ items) d = put_all items (put k v d)

  pub get-put_all :
      (k : K) (items d : Dict K V)
      → Distinct items
      → get k (put_all items d) ≡ or_else (get k items) (get k d)
  unfolding get put_all
  get-put_all k [] d h = refl
  get-put_all k ((j, v) ∷ items) d h =
      ground (arith, get-put_all k items (put j v d) h.1, get-put j k v d, e.beq_iff j k)

  pub All-put {μ} :
      (P : K × V → Type μ) (k : K) (v : V) (d : Dict K V) → P (k, v) → All P d → All P (put k v d)
  unfolding put
  All-put P k v [] new old = (new, tt)
  All-put P k v ((i, w) ∷ d) new old = elim (Bool-cases (e.beq i k)) [
    | inl same ↦ rw same (subst (λ j. P (j, v)) (sym ((e.beq_iff i k).0 same)) new, old.1)
    | inr other ↦ rw other (old.0, All-put P k v d new old.1)
  ]

  pub All-remove {μ} : (P : K × V → Type μ) (k : K) (d : Dict K V) → All P d → All P (remove k d)
  unfolding remove
  All-remove P k [] old = tt
  All-remove P k ((i, w) ∷ d) old = ground (arith, All-remove P k d old.1)

  pub remove_ne : (k : K) (d : Dict K V) → All (λ x. e.beq k x.0 ≡ false) (remove k d)
  unfolding remove
  remove_ne k [] = tt
  remove_ne k ((i, w) ∷ d) = ground (arith, remove_ne k d, e.beq_iff i k, e.beq_iff k i)

-- Keys that are renamed without clashes, and values that are mapped.
module _ {ℓ κ μ ν} {J : Type ℓ} {K : Type κ} {V : Type μ} {W : Type ν} ⦃e : Eq J⦄ ⦃f : Eq K⦄ where
  pub get-map :
      (build : J → K)
      → ((a b : J) → build a ≡ build b → a ≡ b)
      → (g : V → W) (j : J) (d : Dict J V)
      → get (build j) (map (λ x. (build x.0, g x.1)) d) ≡ Option.map g (get j d)
  unfolding get
  get-map build injective g j [] = refl
  get-map build injective g j ((i, v) ∷ d) = ground (
    arith,
    get-map build injective g j d,
    e.beq_iff i j,
    f.beq_iff (build i) (build j),
    injective i j,
  )

pub ruleset dict_laws = (get-put, get-remove)
