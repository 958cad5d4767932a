-- ===== src/Pipeline/Counts.antt =====
-- How often a text stands in a list, for the order of the nodes that `PipelineRegistry._validate` of
-- scenara/platform/pipeline.py finds.
use scenara.Prelude.{
  String, ℕ, suc, ◌+◌, ◌≤◌, ◌≡◌, refl, inl, inr, Bool, true, false, List, [], ◌∷◌, ◌++◌, ◌==◌,
  string_eq, ==-iff, contains, filter, count, length, Bool-cases, if◌then◌else◌, arith,
}

unfoldable pub occurrences : String → List String → ℕ
occurrences x [] = 0
occurrences x (y ∷ ys) = let rest = occurrences x ys in if y == x then suc rest else rest

pub occurrences-count : (x : String) (xs : List String) → occurrences x xs ≡ count (λ y. y == x) xs
unfolding occurrences
occurrences-count x [] = refl
occurrences-count x (y ∷ ys) = ground (arith, occurrences-count x ys)

pub occurrences-append :
    (x : String) (xs ys : List String)
    → occurrences x (xs ++ ys) ≡ occurrences x xs + occurrences x ys
unfolding occurrences
occurrences-append x [] ys = omega arith
occurrences-append x (y ∷ xs) ys = ground (arith, occurrences-append x xs ys)

pub occurrences-filter :
    (x : String) (p : String → Bool) (xs : List String)
    → occurrences x (filter p xs) ≤ occurrences x xs
unfolding occurrences
occurrences-filter x p [] = omega arith
occurrences-filter x p (y ∷ ys) = ground (arith, occurrences-filter x p ys)

pub occurrences-some : (x : String) (xs : List String) → contains x xs ≡ true → 1 ≤ occurrences x xs
unfolding occurrences
occurrences-some x [] h = absurd (ground (arith, h))
occurrences-some x (y ∷ ys) h = ground (arith, occurrences-some x ys, ==-iff x y, ==-iff y x)

pub occurrences-none :
    (x : String) (xs : List String) → contains x xs ≡ false → occurrences x xs ≡ 0
unfolding occurrences
occurrences-none x [] h = refl
occurrences-none x (y ∷ ys) h = ground (arith, occurrences-none x ys, ==-iff x y, ==-iff y x)

-- The list without the first such text.
remove : String → List String → List String
remove x [] = []
remove x (y ∷ ys) = let rest = remove x ys in if y == x then ys else y ∷ rest

length-remove :
    (x : String) (ys : List String) → 1 ≤ occurrences x ys → suc (length (remove x ys)) ≡ length ys
unfolding occurrences remove
length-remove x [] h = absurd (omega (arith, h))
length-remove x (y ∷ ys) h = ground (arith, length-remove x ys)

occurrences-remove :
    (x y : String) (ys : List String)
    → occurrences y ys ≤ occurrences y (remove x ys) + (if x == y then 1 else 0)
unfolding occurrences remove
occurrences-remove x y [] = ground arith
occurrences-remove x y (z ∷ ys) =
    ground (arith, occurrences-remove x y ys, ==-iff z x, ==-iff z y, ==-iff x y)

-- No text stands in one list more often than in the other.
abbrev pub FitsIn : List String → List String → Type 0
FitsIn xs ys = (x : String) → occurrences x xs ≤ occurrences x ys

pub length-FitsIn : (xs ys : List String) → FitsIn xs ys → length xs ≤ length ys
unfolding occurrences
length-FitsIn [] ys fits = omega arith
length-FitsIn (x ∷ xs) ys fits =
    let here : 1 ≤ occurrences x ys = ground (arith, fits x, ==-iff x x) in
    let rest =
      length-FitsIn xs (remove x ys) (λ y. ground (arith, fits y, occurrences-remove x y ys)) in
    omega (arith, rest, length-remove x ys here)

-- A list that fits into one of the same length has all its texts.
pub FitsIn-full :
    (xs ys : List String)
    → FitsIn xs ys
    → length xs ≡ length ys
    → (x : String) → contains x ys ≡ true
    → contains x xs ≡ true
unfolding occurrences
FitsIn-full xs ys fits same x there = elim (Bool-cases (contains x xs)) [
  | inl found ↦ found
  | inr absent ↦
      let long = length-FitsIn (x ∷ xs) ys (λ y.
        ground
          (arith, fits y, occurrences-none x xs absent, occurrences-some x ys there, ==-iff x y)) in
      absurd (omega (arith, long, same))
]
