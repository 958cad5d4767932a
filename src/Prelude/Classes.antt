-- ===== src/Prelude/Classes.antt =====
-- Decidable equality as an interface, with the types that serve as keys.
use Prim.Native.Nat.{ℕ}
use Prim.Native.String.{String}
use mathlib.Core.Path.{◌≡◌, refl}
use mathlib.Core.Logic.{◌↔◌}
use mathlib.Core.Bool.{Bool, true, false, ◌&&◌}
use mathlib.Core.Option.{Option, none, some}
use mathlib.Core.List.{List, [], ◌∷◌}
use native.Mathlib.Omega.{arith}
use text.Mathlib.Text.{◌==◌ as str_eq}
use text.Mathlib.TextEquality.{eq_iff}
use scenara.Prelude.Tests.{nat_eqb, nat_eqb_iff, if◌then◌else◌}

-- A test of equality that decides it.
pub record Eq {ℓ} (A : Type ℓ) : Type ℓ where
  pub test : A → A → Bool
  pub decides : (x y : A) → (test x y ≡ true) ↔ (x ≡ y)

instance abbrev pub string_eq : Eq String
string_eq = record { test = str_eq; decides = eq_iff }

instance abbrev pub nat_eq : Eq ℕ
nat_eq = record { test = nat_eqb; decides = nat_eqb_iff }

module _ {ℓ} {A : Type ℓ} ⦃e : Eq A⦄ where
  infix 50 ◌==◌
  abbrev pub ◌==◌ : A → A → Bool
  x == y = e.test x y

  pub ==-iff : (x y : A) → ((x == y) ≡ true) ↔ (x ≡ y)
  ==-iff x y = e.decides x y

  pub ==-refl : (x : A) → (x == x) ≡ true
  ==-refl x = (e.decides x x).1 refl

module _ {ℓ} {A : Type ℓ} ⦃e : Eq A⦄ where
  abbrev pub option_eqb : Option A → Option A → Bool
  option_eqb none none = true
  option_eqb none (some b) = false
  option_eqb (some a) none = false
  option_eqb (some a) (some b) = a == b

  pub option_eqb_iff : (a b : Option A) → (option_eqb a b ≡ true) ↔ (a ≡ b)
  option_eqb_iff none none = (λ h. refl, λ h. refl)
  option_eqb_iff none (some b) = (λ h. cc, λ h. cc)
  option_eqb_iff (some a) none = (λ h. cc, λ h. cc)
  option_eqb_iff (some a) (some b) = ground (arith, e.decides a b)

  instance abbrev pub option_eq : Eq (Option A)
  option_eq = record { test = option_eqb; decides = option_eqb_iff }

  -- `x in xs`
  abbrev pub contains : A → List A → Bool
  contains a [] = false
  contains a (x ∷ xs) = if a == x then true else contains a xs

module _ {ℓ κ} {A : Type ℓ} {B : Type κ} ⦃d : Eq A⦄ ⦃e : Eq B⦄ where
  abbrev pub pair_eqb : A × B → A × B → Bool
  pair_eqb (a, b) (a', b') = (a == a') && (b == b')

  pub pair_eqb_iff : (x y : A × B) → (pair_eqb x y ≡ true) ↔ (x ≡ y)
  pair_eqb_iff (a, b) (a', b') = ground (arith, d.decides a a', e.decides b b')

  instance abbrev pub pair_eq : Eq (A × B)
  pair_eq = record { test = pair_eqb; decides = pair_eqb_iff }

-- Tenant, project and identifier: the key of every scoped table.
abbrev pub Key : Type 0
Key = String × String × String

unfoldable pub key_eqb : Key → Key → Bool
key_eqb (t, p, i) (t', p', i') = (t == t') && ((p == p') && (i == i'))

pub key_eqb_iff : (a b : Key) → (key_eqb a b ≡ true) ↔ (a ≡ b)
unfolding key_eqb
key_eqb_iff (t, p, i) (t', p', i') = ground (arith, eq_iff t t', eq_iff p p', eq_iff i i')

instance abbrev pub key_eq : Eq Key
key_eq = record { test = key_eqb; decides = key_eqb_iff }
