-- ===== src/Base/Dict.antt =====
-- Python's `dict`: an association list in insertion order. A write to a key that is there keeps its
-- place, and a new key goes to the end.
pub mod Unique
use Prim.Native.Nat.{ℕ, suc, ◌≤◌, ◌+◌}
use mathlib.Core.Path.{◌≡◌, refl}
use mathlib.Core.Bool.{Bool, true, false}
use mathlib.Core.Option.{Option, none, some}
use mathlib.Core.List.{List, [], ◌∷◌, ◌++◌, map}
use native.Mathlib.Omega.{arith}
use market_sentinel.Base.Tests.{if◌then◌else◌, is_some}
use market_sentinel.Base.Lists.{length}
use market_sentinel.Base.Eq.{Eq, ◌==◌}

abbrev pub Dict {ℓ κ} : Type ℓ → Type κ → Type (ℓ ⊔ κ)
Dict K V = List (K × V)

module _ {ℓ κ} {K : Type ℓ} {V : Type κ} where
  abbrev pub keys : Dict K V → List K
  keys [] = []
  keys ((k, v) ∷ d) = k ∷ keys d

  abbrev pub values : Dict K V → List V
  values [] = []
  values ((k, v) ∷ d) = v ∷ values d

module _ {ℓ κ} {K : Type ℓ} {V : Type κ} ⦃e : Eq K⦄ where
  unfoldable pub get : K → Dict K V → Option V
  get k [] = none
  get k ((j, v) ∷ d) = if j == k then some v else get k d

  unfoldable pub set : K → V → Dict K V → Dict K V
  set k v [] = (k, v) ∷ []
  set k v ((j, w) ∷ d) = if j == k then (j, v) ∷ d else (j, w) ∷ set k v d

  unfoldable pub pop : K → Dict K V → Dict K V
  pop k [] = []
  pop k ((j, v) ∷ d) = let rest = pop k d in if j == k then rest else (j, v) ∷ rest

  abbrev pub contains : K → Dict K V → Bool
  contains k d = is_some (get k d)

  pub get-set :
      (k j : K) (v : V) (d : Dict K V) → get j (set k v d) ≡ (if k == j then some v else get j d)
  unfolding get set
  get-set k j v [] = refl
  get-set k j v ((i, w) ∷ d) =
      ground (arith, e.beq_iff k j, e.beq_iff i k, e.beq_iff i j, get-set k j v d)

  pub get-pop : (k j : K) (d : Dict K V) → get j (pop k d) ≡ (if k == j then none else get j d)
  unfolding get pop
  get-pop k j [] = ground arith
  get-pop k j ((i, w) ∷ d) =
      ground (arith, e.beq_iff k j, e.beq_iff i k, e.beq_iff i j, get-pop k j d)

  -- only a new key makes the dictionary longer
  pub length-set :
      (k : K) (v : V) (d : Dict K V)
      → length (set k v d) ≡ (if contains k d then length d else suc (length d))
  unfolding get set
  length-set k v [] = refl
  length-set k v ((i, w) ∷ d) = ground (arith, length-set k v d)

  pub length-pop-le : (k : K) (d : Dict K V) → length (pop k d) ≤ length d
  unfolding pop
  length-pop-le k [] = omega arith
  length-pop-le k ((i, w) ∷ d) = ground (arith, length-pop-le k d)

pub ruleset dict_laws = (get-set, get-pop)
