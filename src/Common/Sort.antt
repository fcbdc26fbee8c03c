-- ===== src/Common/Sort.antt =====
-- `sorted(…)` by insertion, over a Boolean order, and the order of Python on texts and numbers.
use Prim.Native.Char.{code}
use Prim.Native.Nat.{ℕ}
use Prim.Native.String.{String}
use mathlib.Core.Bool.{Bool, true, false, ◌&&◌, ◌||◌}
use mathlib.Core.Path.{◌≡◌, subst}
use mathlib.Core.List.{List, [], ◌∷◌, Perm}
use mathlib.Core.List.Perm
use mathlib.Core.Option.{Option, none, some}
use native.Mathlib.Omega.{arith}
use agora_etl_plugins.Common.Lists.{All, In}
use agora_etl_plugins.Common.Tests.{ltb, nat_beq, if◌then◌else◌, Bool-cases, if-cases}
use mathlib.Core.Logic.{inl, inr, ◌⊎◌, ◌↔◌}

-- The code points of a text.
abbrev pub codes : String → List ℕ
codes String.[] = []
codes (String.◌∷◌ c s) = code c ∷ codes s

-- `xs <= ys` on sequences of numbers
unfoldable pub codes_leb : List ℕ → List ℕ → Bool
codes_leb [] ys = true
codes_leb (x ∷ xs) [] = false
codes_leb (x ∷ xs) (y ∷ ys) = ltb x y || (nat_beq x y && codes_leb xs ys)

module _ {ℓ} {A : Type ℓ} (leq : A → A → Bool) where
  unfoldable pub insert : A → List A → List A
  insert a [] = a ∷ []
  insert a (b ∷ bs) = if leq a b then a ∷ b ∷ bs else b ∷ insert a bs

  unfoldable pub sort : List A → List A
  sort [] = []
  sort (a ∷ xs) = insert a (sort xs)

  insert-perm : (a : A) (bs : List A) → Perm (insert a bs) (a ∷ bs)
  unfolding insert
  insert-perm a [] = Perm.refl _
  insert-perm a (b ∷ bs) = elim (Bool-cases (leq a b)) [
    | inl h ↦ rw h (Perm.refl _)
    | inr h ↦ rw h (Perm.trans (Perm.cons b (insert-perm a bs)) (Perm.swap a b bs))
  ]

  pub sort-perm : (xs : List A) → Perm (sort xs) xs
  unfolding sort
  sort-perm [] = Perm.refl _
  sort-perm (a ∷ xs) = Perm.trans (insert-perm a (sort xs)) (Perm.cons a (sort-perm xs))

-- `xs[-1]`
unfoldable pub last {ℓ} : {A : Type ℓ} → List A → Option A
last [] = none
last (a ∷ []) = some a
last (a ∷ b ∷ xs) = last (b ∷ xs)

module _ {ℓ κ} {A : Type ℓ} (P : A → Type κ) where
  All-insert : (leq : A → A → Bool) (a : A) (bs : List A) → P a → All P bs → All P (insert leq a bs)
  unfolding insert
  All-insert leq a [] h hs = (h, tt)
  All-insert leq a (b ∷ bs) h hs = ground (arith, All-insert leq a bs h hs.1)

  pub All-sort : (leq : A → A → Bool) (xs : List A) → All P xs → All P (sort leq xs)
  unfolding sort
  All-sort leq [] hs = tt
  All-sort leq (x ∷ xs) hs = All-insert leq x (sort leq xs) hs.0 (All-sort leq xs hs.1)

  pub All-last : (xs : List A) {x : A} → All P xs → last xs ≡ some x → P x
  unfolding last
  All-last [] hs e = cc
  All-last (a ∷ []) {x} hs e = let same : a ≡ x = cc in subst P same hs.0
  All-last (a ∷ b ∷ xs) hs e = All-last (b ∷ xs) hs.1 e

In-insert :
    {A : Type 0} (leq : A → A → Bool) (a b : A) (xs : List A)
    → In a (insert leq b xs) ↔ ((b ≡ a) ⊎ In a xs)
unfolding insert
In-insert leq a b [] = (λ h. h, λ h. h)
In-insert leq a b (x ∷ xs) =
    if-cases (λ l. In a l ↔ ((b ≡ a) ⊎ In a (x ∷ xs))) (leq b x) (λ e. (λ h. h, λ h. h))
      (λ e.
        let ih = In-insert leq a b xs in
        (
          λ h. elim h [
            | inl same ↦ inr (inl same)
            | inr later ↦ elim (ih.0 later) [ inl same ↦ inl same | inr old ↦ inr (inr old) ]
          ],
          λ h. elim h [
            | inl same ↦ inr (ih.1 (inl same))
            | inr old ↦ elim old [ inl same ↦ inl same | inr rest ↦ inr (ih.1 (inr rest)) ]
          ],
        ))

pub In-sort : {A : Type 0} (leq : A → A → Bool) (a : A) (xs : List A) → In a (sort leq xs) ↔ In a xs
unfolding sort
In-sort leq a [] = (λ h. h, λ h. h)
In-sort leq a (x ∷ xs) =
    let ih = In-sort leq a xs in
    let here = In-insert leq a x (sort leq xs) in
    (
      λ h. elim (here.0 h) [ inl same ↦ inl same | inr later ↦ inr (ih.0 later) ],
      λ h. elim h [ inl same ↦ here.1 (inl same) | inr later ↦ here.1 (inr (ih.1 later)) ],
    )
