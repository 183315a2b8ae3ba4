-- ===== src/Base/Eq.antt =====
-- Equality tests of the types that key a dictionary or are compared in the source.
use text.Mathlib.Text.{◌==◌ as str_eq}
use text.Mathlib.TextEquality.{eq_iff}
use mathlib.Core.Path.{◌≡◌}
use mathlib.Core.Logic.{◌↔◌, ◌⊎◌, inl, inr}
use mathlib.Core.Bool.{Bool, true, false}
use Prim.Native.String.{String}
use market_sentinel.Base.Tests.{Bool-cases}

-- a test of two elements, which answers `true` for equal ones only
pub record Eq {ℓ} (A : Type ℓ) : Type ℓ where
  pub beq : A → A → Bool
  pub beq_iff : (x y : A) → (beq x y ≡ true) ↔ (x ≡ y)

module _ {ℓ} {A : Type ℓ} ⦃e : Eq A⦄ where
  infix 50 ◌==◌
  -- `x == y`, and `x is y` of enumeration members
  abbrev pub ◌==◌ : A → A → Bool
  x == y = e.beq x y

module _ {ℓ} {A : Type ℓ} ⦃e : Eq A⦄ where
  pub beq_refl : (a : A) → (a == a) ≡ true
  beq_refl a = (e.beq_iff a a).1 (λ i. a)

  -- a decision that keeps the equation
  pub beq-cases : (a b : A) → (a ≡ b) ⊎ ((a == b) ≡ false)
  beq-cases a b = elim (Bool-cases (a == b)) [ inl h ↦ inl ((e.beq_iff a b).0 h) | inr h ↦ inr h ]

-- strings, by their characters
instance abbrev pub string_eq : Eq String
string_eq = record { beq_iff = eq_iff; beq = str_eq }
