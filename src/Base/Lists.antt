-- ===== src/Base/Lists.antt =====
-- Lists over the native numbers, and the comprehensions of the source, which test by a `Bool`.
use Prim.Native.Nat.{ℕ, zero, suc, ◌+◌, ◌-◌, ◌<◌}
use mathlib.Core.Path.{◌≡◌, refl, ap, subst}
use mathlib.Core.Bool.{Bool, true, false, ◌||◌, false≢true}
use mathlib.Core.Option.{Option, none, some, some-injective}
use mathlib.Core.List.{List, [], ◌∷◌, ◌++◌}
use mathlib.Core.Logic.{inl, inr}
use native.Mathlib.Omega.{arith}
use market_sentinel.Base.Tests.{if◌then◌else◌, Bool-cases, or_else, is_some}

module _ {ℓ} {A : Type ℓ} where
  abbrev pub length : List A → ℕ
  length [] = 0
  length (x ∷ xs) = suc (length xs)

  abbrev pub drop : ℕ → List A → List A
  drop zero xs = xs
  drop (suc n) [] = []
  drop (suc n) (x ∷ xs) = drop n xs

  abbrev pub last? : List A → Option A
  last? [] = none
  last? (x ∷ []) = some x
  last? (x ∷ (y ∷ ys)) = last? (y ∷ ys)

  -- `[x for x in xs if p(x)]`
  abbrev pub filter : (A → Bool) → List A → List A
  filter p [] = []
  filter p (x ∷ xs) = let rest = filter p xs in if p x then x ∷ rest else rest

  -- `any(p(x) for x in xs)`
  abbrev pub any : (A → Bool) → List A → Bool
  any p [] = false
  any p (x ∷ xs) = p x || any p xs

  abbrev pub All {κ} : (A → Type κ) → List A → Type κ
  All P [] = Unit
  All P (x ∷ xs) = P x × All P xs

  pub length-append : (xs ys : List A) → length (xs ++ ys) ≡ length xs + length ys
  length-append [] ys = omega arith
  length-append (x ∷ xs) ys = omega (arith, length-append xs ys)

  pub length-drop : (n : ℕ) (xs : List A) → length (drop n xs) ≡ length xs - n
  length-drop zero xs = omega arith
  length-drop (suc n) [] = omega arith
  length-drop (suc n) (x ∷ xs) = omega (arith, length-drop n xs)

  pub All-append {κ} : (P : A → Type κ) (xs ys : List A) → All P xs → All P ys → All P (xs ++ ys)
  All-append P [] ys _ q = q
  All-append P (x ∷ xs) ys (p, ps) q = (p, All-append P xs ys ps q)

  pub All-map_imp {κ μ} :
      (P : A → Type κ) (Q : A → Type μ) (xs : List A) → ((x : A) → P x → Q x) → All P xs → All Q xs
  All-map_imp P Q [] f h = tt
  All-map_imp P Q (x ∷ xs) f (p, ps) = (f x p, All-map_imp P Q xs f ps)

  -- what a filter keeps passes its test
  pub All-filter_test : (p : A → Bool) (xs : List A) → All (λ x. p x ≡ true) (filter p xs)
  All-filter_test p [] = tt
  All-filter_test p (x ∷ xs) = elim (Bool-cases (p x)) [
    | inl e ↦ rw e (e, All-filter_test p xs)
    | inr e ↦ rw e (All-filter_test p xs)
  ]

  pub All-filter {κ} :
      (P : A → Type κ) (p : A → Bool) (xs : List A) → All P xs → All P (filter p xs)
  All-filter P p [] h = tt
  All-filter P p (x ∷ xs) (h, hs) = elim (Bool-cases (p x)) [
    | inl e ↦ rw e (h, All-filter P p xs hs)
    | inr e ↦ rw e (All-filter P p xs hs)
  ]

  pub last?-cons : (x : A) (xs : List A) → last? (x ∷ xs) ≡ some (or_else (last? xs) x)
  last?-cons x [] = refl
  last?-cons x (y ∷ ys) = rw (last?-cons y ys)

  -- dropping from the front keeps the last element, unless it drops all
  pub last?-drop : (n : ℕ) (xs : List A) (a : A) → last? (drop n xs) ≡ some a → last? xs ≡ some a
  last?-drop zero xs a h = h
  last?-drop (suc n) [] a h = h
  last?-drop (suc n) (x ∷ xs) a h = ground (arith, last?-cons x xs, last?-drop n xs a h)

  pub last?-drop_lt : (n : ℕ) (xs : List A) → n < length xs → last? (drop n xs) ≡ last? xs
  last?-drop_lt zero xs h = refl
  last?-drop_lt (suc n) [] h = absurd (omega arith)
  last?-drop_lt (suc n) (x ∷ []) h = absurd (omega arith)
  last?-drop_lt (suc n) (x ∷ (y ∷ ys)) h = last?-drop_lt n (y ∷ ys) (omega arith)

  pub All-drop {κ} : (P : A → Type κ) (n : ℕ) (xs : List A) → All P xs → All P (drop n xs)
  All-drop P zero xs h = h
  All-drop P (suc n) [] h = tt
  All-drop P (suc n) (x ∷ xs) (h, hs) = All-drop P n xs hs

  pub All-last? {κ} : (P : A → Type κ) (xs : List A) (a : A) → All P xs → last? xs ≡ some a → P a
  All-last? P [] a h e = absurd (false≢true (ap is_some e))
  All-last? P (x ∷ []) a (h, hs) e = subst P (some-injective _ _ e) h
  All-last? P (x ∷ (y ∷ ys)) a (h, hs) e = All-last? P (y ∷ ys) a hs e
