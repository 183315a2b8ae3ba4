-- ===== src/Base/Float.antt =====
-- Python's `float`. The language's own arithmetic on doubles is an argument of the definitions that
-- compute with it: a type with the operations of the source, and the laws of comparison and of
-- subtraction that the proofs rely on. The type stands for finite doubles whose differences do not
-- overflow: `normalize_snapshot` lets only finite numbers in.
pub mod Order
use Prim.Native.Nat.{ℕ, ◌+◌, ◌*◌, ◌/◌, ◌^◌}
use mathlib.Core.Path.{◌≡◌}
use mathlib.Core.Logic.{◌⊎◌}
use mathlib.Core.Bool.{Bool, true, not, ◌&&◌}
use native.Mathlib.Omega.{arith}
use market_sentinel.Base.Tests.{leb, if◌then◌else◌}
use market_sentinel.Base.Int.{
  ℤ, pos, negsuc, pos_part, neg_part, le_ℤ, lt_ℤ, add_ℤ, neg_ℤ, sub_ℤ, magnitude, signed_as,
}

pub record Float (F : Type 0) : Type 0 where
  pub le_op : F → F → Bool
  pub lt_op : F → F → Bool
  pub eq_op : F → F → Bool
  pub add_op : F → F → F
  pub sub_op : F → F → F
  pub mul_op : F → F → F
  pub div_op : F → F → F
  pub abs_op : F → F
  pub neg_op : F → F
  -- the literal n / 10 ^ k, so 0.006 is `dec_op 6 3`
  pub dec_op : ℕ → ℕ → F

module _ {F : Type 0} ⦃f : Float F⦄ where
  -- `a <= b` and `b >= a`
  abbrev pub le : F → F → Bool
  le = f.le_op

  -- `a < b` and `b > a`
  abbrev pub lt : F → F → Bool
  lt = f.lt_op

  abbrev pub eq : F → F → Bool
  eq = f.eq_op

  abbrev pub add : F → F → F
  add = f.add_op

  abbrev pub sub : F → F → F
  sub = f.sub_op

  abbrev pub mul : F → F → F
  mul = f.mul_op

  abbrev pub div : F → F → F
  div = f.div_op

  abbrev pub abs : F → F
  abs = f.abs_op

  abbrev pub neg : F → F
  neg = f.neg_op

  abbrev pub dec : ℕ → ℕ → F
  dec = f.dec_op

  -- a whole number
  abbrev pub num : ℕ → F
  num n = f.dec_op n 0

  -- the built-in `max(a, b)` and `min(a, b)`, which keep the first of two equal values
  abbrev pub max_of : F → F → F
  max_of a b = if lt a b then b else a

  abbrev pub min_of : F → F → F
  min_of a b = if lt b a then b else a

  infix 4 ◌≼◌
  abbrev pub ◌≼◌ : F → F → Type 0
  a ≼ b = le a b ≡ true

  infix 4 ◌≺◌
  abbrev pub ◌≺◌ : F → F → Type 0
  a ≺ b = lt a b ≡ true

-- Comparison of finite doubles. `==` is no equation: 0.0 == -0.0.
pub record IsOrdered (F : Type 0) ⦃f : Float F⦄ : Type 0 where
  pub le_refl : (a : F) → a ≼ a
  pub le_trans : (a b c : F) → a ≼ b → b ≼ c → a ≼ c
  pub le_total : (a b : F) → (a ≼ b) ⊎ (b ≼ a)
  pub lt-eq-not-le : (a b : F) → lt a b ≡ not (le b a)
  pub eq-eq-le : (a b : F) → eq a b ≡ (le a b && le b a)

-- Rounding to nearest keeps the order of differences and their sign.
pub record IsMonotone (F : Type 0) ⦃f : Float F⦄ : Type 0 where
  pub sub_mono : (a b c : F) → a ≼ b → sub a c ≼ sub b c
  pub sub_anti : (a b c : F) → a ≼ b → sub c b ≼ sub c a
  pub sub_nonneg : (a b : F) → le (num 0) (sub a b) ≡ le b a
  pub sub_nonpos : (a b : F) → le (sub a b) (num 0) ≡ le a b
  pub sub_zero : (a : F) → sub a (num 0) ≡ a

-- Fixed-point numbers with six decimals, on which every definition runs.
abbrev pub Micro : Type 0
Micro = ℤ

instance abbrev pub micro_float : Float Micro
micro_float = record {
  le_op = le_ℤ;
  lt_op = lt_ℤ;
  eq_op = λ a b. le_ℤ a b && le_ℤ b a;
  add_op = add_ℤ;
  sub_op = sub_ℤ;
  mul_op = λ a b. signed_as a b (magnitude a * magnitude b / 1_000_000);
  div_op = λ a b. signed_as a b (magnitude a * 1_000_000 / magnitude b);
  abs_op = λ a. pos (magnitude a);
  neg_op = neg_ℤ;
  dec_op = λ n k. pos (n * 1_000_000 / 10 ^ k);
}

pub Micro-IsOrdered : IsOrdered Micro
Micro-IsOrdered = ground arith

pub Micro-IsMonotone : IsMonotone Micro
Micro-IsMonotone = ground arith
