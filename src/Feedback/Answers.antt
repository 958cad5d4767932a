-- ===== src/Feedback/Answers.antt =====
-- Chains of answers, in which what is raised ends the chain, and case splits on an answer.
use scenara.Prelude.{String, ◌≡◌, ◌⊎◌, inl, inr, refl, ap, arith, Option, none, some}
use scenara.Policy.{PolicyDecision, Verdict, granted, denied}
use scenara.Feedback.Models.{Answer, answered, not_found, refused, forbidden}

module _ {ℓ} {A : Type ℓ} where
  pub Answer-cases :
      (a : Answer A)
      → ((x : A) × (a ≡ answered x))
        ⊎ (((m : String) × (a ≡ not_found m))
            ⊎ (((m : String) × (a ≡ refused m)) ⊎ ((m : String) × (a ≡ forbidden m))))
  Answer-cases (answered x) = inl (x, refl)
  Answer-cases (not_found m) = inr (inl (m, refl))
  Answer-cases (refused m) = inr (inr (inl (m, refl)))
  Answer-cases (forbidden m) = inr (inr (inr (m, refl)))

module _ {ℓ κ} {A : Type ℓ} {B : Type κ} where
  unfoldable pub and_then : Answer A → (A → Answer B) → Answer B
  and_then (answered x) f = f x
  and_then (not_found m) f = not_found m
  and_then (refused m) f = refused m
  and_then (forbidden m) f = forbidden m

  -- A chain that is answered was answered at each link.
  pub and_then-answered :
      (a : Answer A) (f : A → Answer B) (y : B)
      → and_then a f ≡ answered y
      → (x : A) × (a ≡ answered x) × (f x ≡ answered y)
  unfolding and_then
  and_then-answered (answered x) f y h = (x, refl, h)
  and_then-answered (not_found m) f y h = absurd (ground (arith, h))
  and_then-answered (refused m) f y h = absurd (ground (arith, h))
  and_then-answered (forbidden m) f y h = absurd (ground (arith, h))

-- A policy that denies raises `PolicyDenied`.
unfoldable pub authorised : Verdict → Answer PolicyDecision
authorised (granted decision) = answered decision
authorised (denied m) = forbidden m

-- A missing record raises `FeedbackNotFound`.
unfoldable pub or_not_found {ℓ} : {A : Type ℓ} → String → Option A → Answer A
or_not_found m none = not_found m
or_not_found m (some x) = answered x

pub or_not_found-answered {ℓ} :
    {A : Type ℓ} (m : String) (o : Option A) (x : A) → or_not_found m o ≡ answered x → o ≡ some x
unfolding or_not_found
or_not_found-answered m none x h = absurd (ground (arith, h))
or_not_found-answered m (some y) x h = ap some (cc h)
