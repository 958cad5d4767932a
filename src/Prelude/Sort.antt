-- ===== src/Prelude/Sort.antt =====
-- Python's `sorted` and `list.sort`, which are stable, as insertion; and the orders that serve as
-- sort keys. Texts compare by code points, as Python's do.
use Prim.Native.Nat.{ℕ, suc, Ordering}
use Prim.Native.String.{String, compare}
use mathlib.Core.Path.{◌≡◌, refl, ap, ◌∙◌}
use mathlib.Core.Bool.{Bool, true, false, ◌||◌}
use mathlib.Core.List.{List, [], ◌∷◌}
use native.Mathlib.Omega.{arith}
use scenara.Prelude.Tests.{if◌then◌else◌, Bool-cases, ltb, nat_eqb}
use scenara.Prelude.Lists.{length, count, All}
use scenara.Prelude.Classes.{Eq, contains, ◌==◌}
use mathlib.Core.Logic.{inl, inr}

abbrev pub str_ltb : String → String → Bool
str_ltb s t = elim (compare s t) [ Ordering.lt ↦ true | _ ↦ false ]

-- The order of the pairs (time, identifier).
abbrev pub stamped_ltb : ℕ → String → ℕ → String → Bool
stamped_ltb t i t' i' = if ltb t t' then true else if nat_eqb t t' then str_ltb i i' else false

module _ {ℓ} {A : Type ℓ} (before : A → A → Bool) where
  insert_sorted : A → List A → List A
  insert_sorted x [] = x ∷ []
  insert_sorted x (y ∷ ys) =
      let rest = insert_sorted x ys in if before y x then y ∷ rest else x ∷ y ∷ ys

  unfoldable pub sort : List A → List A
  unfolding insert_sorted
  sort [] = []
  sort (x ∷ xs) = insert_sorted x (sort xs)

  length-insert_sorted : (x : A) (xs : List A) → length (insert_sorted x xs) ≡ suc (length xs)
  unfolding insert_sorted
  length-insert_sorted x [] = refl
  length-insert_sorted x (y ∷ ys) = ground (arith, length-insert_sorted x ys)

  count-insert_sorted :
      (p : A → Bool) (x : A) (xs : List A) → count p (insert_sorted x xs) ≡ count p (x ∷ xs)
  unfolding insert_sorted
  count-insert_sorted p x [] = refl
  count-insert_sorted p x (y ∷ ys) = ground (arith, count-insert_sorted p x ys)

  pub count-sort : (p : A → Bool) (xs : List A) → count p (sort xs) ≡ count p xs
  unfolding sort
  count-sort p [] = refl
  count-sort p (x ∷ xs) = count-insert_sorted p x (sort xs) ∙ ground (arith, count-sort p xs)

  pub length-sort : (xs : List A) → length (sort xs) ≡ length xs
  unfolding sort
  length-sort [] = refl
  length-sort (x ∷ xs) = length-insert_sorted x (sort xs) ∙ ap suc (length-sort xs)

module _ {ℓ κ} {A : Type ℓ} (before : A → A → Bool) (P : A → Type κ) where
  All-insert_sorted : (x : A) (xs : List A) → P x → All P xs → All P (insert_sorted before x xs)
  unfolding insert_sorted
  All-insert_sorted x [] h all = (h, tt)
  All-insert_sorted x (y ∷ ys) h all = elim (Bool-cases (before y x)) [
    | inl less ↦ rw less (all.0, All-insert_sorted x ys h all.1)
    | inr more ↦ rw more (h, all)
  ]

  pub All-sort : (xs : List A) → All P xs → All P (sort before xs)
  unfolding sort
  All-sort [] all = tt
  All-sort (x ∷ xs) all = All-insert_sorted x (sort before xs) all.0 (All-sort xs all.1)

module _ {ℓ} {A : Type ℓ} ⦃e : Eq A⦄ (before : A → A → Bool) where
  contains-insert_sorted :
      (a x : A) (xs : List A) → contains a (insert_sorted before x xs) ≡ (a == x || contains a xs)
  unfolding insert_sorted
  contains-insert_sorted a x [] = ground arith
  contains-insert_sorted a x (y ∷ ys) = ground (arith, contains-insert_sorted a x ys)

  pub contains-sort : (a : A) (xs : List A) → contains a (sort before xs) ≡ contains a xs
  unfolding sort
  contains-sort a [] = refl
  contains-sort a (x ∷ xs) =
      contains-insert_sorted a x (sort before xs) ∙ ground (arith, contains-sort a xs)
