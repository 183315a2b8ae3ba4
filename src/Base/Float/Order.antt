-- ===== src/Base/Float/Order.antt =====
-- Consequences of the laws of comparison.
use mathlib.Core.Path.{◌≡◌}
use mathlib.Core.Bool.{false}
use native.Mathlib.Omega.{arith}
use market_sentinel.Base.Float.{Float, IsOrdered, le, lt, eq, ◌≼◌, ◌≺◌, max_of, min_of}

module _ {F : Type 0} ⦃f : Float F⦄ (laws : IsOrdered F) where
  open laws use {le_refl, le_trans, le_total, lt-eq-not-le, eq-eq-le}

  pub le_of_lt : (a b : F) → a ≺ b → a ≼ b
  le_of_lt a b h = ground (arith, lt-eq-not-le a b, le_total a b)

  pub le_of_not_lt : (a b : F) → lt a b ≡ false → b ≼ a
  le_of_not_lt a b h = ground (arith, lt-eq-not-le a b)

  pub lt_of_not_le : (a b : F) → le a b ≡ false → b ≺ a
  lt_of_not_le a b h = ground (arith, lt-eq-not-le b a)

  pub lt_irrefl : (a : F) → lt a a ≡ false
  lt_irrefl a = ground (arith, lt-eq-not-le a a, le_refl a)

  pub lt_of_lt_of_le : (a b c : F) → a ≺ b → b ≼ c → a ≺ c
  lt_of_lt_of_le a b c h k = ground (arith, lt-eq-not-le a b, lt-eq-not-le a c, le_trans b c a k)

  pub lt_of_le_of_lt : (a b c : F) → a ≼ b → b ≺ c → a ≺ c
  lt_of_le_of_lt a b c h k =
      ground (arith, lt-eq-not-le b c, lt-eq-not-le a c, λ (p : c ≼ a). le_trans c a b p h)

  pub lt_trans : (a b c : F) → a ≺ b → b ≺ c → a ≺ c
  lt_trans a b c h k = lt_of_lt_of_le a b c h (le_of_lt b c k)

  pub lt_of_not_lt_ne : (a b : F) → lt a b ≡ false → eq a b ≡ false → b ≺ a
  lt_of_not_lt_ne a b h n = ground (arith, eq-eq-le a b, lt-eq-not-le a b, lt-eq-not-le b a)

  pub le_max : (a b : F) → (a ≼ max_of a b) × (b ≼ max_of a b)
  le_max a b = ground (arith, le_refl a, le_refl b, le_of_lt a b, le_of_not_lt a b)

  pub min_le : (a b : F) → (min_of a b ≼ a) × (min_of a b ≼ b)
  min_le a b = ground (arith, le_refl a, le_refl b, le_of_lt b a, le_of_not_lt b a)
