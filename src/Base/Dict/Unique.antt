-- ===== src/Base/Dict/Unique.antt =====
-- Dictionaries with no key twice, which is what writes and removals make of the empty one.
use mathlib.Core.Path.{◌≡◌, refl, ap, ◌∙◌, sym}
use mathlib.Core.Bool.{true, false}
use mathlib.Core.List.{[], ◌∷◌, ◌++◌, append_assoc, append-nil}
use native.Mathlib.Omega.{arith}
use market_sentinel.Base.Tests.{if◌then◌else◌}
use market_sentinel.Base.Eq.{Eq, ◌==◌}
use market_sentinel.Base.Dict.{Dict, get, set, pop, contains, get-set, get-pop}

module _ {ℓ κ} {K : Type ℓ} {V : Type κ} ⦃e : Eq K⦄ where
  abbrev pub Unique : Dict K V → Type 0
  Unique [] = Unit
  Unique ((k, v) ∷ d) = (contains k d ≡ false) × Unique d

  -- `d.update(other)`
  unfoldable pub update : Dict K V → Dict K V → Dict K V
  update d [] = d
  update d ((k, v) ∷ other) = update (set k v d) other

  pub contains-set :
      (k j : K) (v : V) (d : Dict K V)
      → contains j (set k v d) ≡ (if k == j then true else contains j d)
  contains-set k j v d = ground (arith, get-set k j v d)

  pub contains-pop :
      (k j : K) (d : Dict K V) → contains j (pop k d) ≡ (if k == j then false else contains j d)
  contains-pop k j d = ground (arith, get-pop k j d)

  pub Unique-set : (k : K) (v : V) (d : Dict K V) → Unique d → Unique (set k v d)
  unfolding set get
  Unique-set k v [] u = (refl, tt)
  Unique-set k v ((j, w) ∷ d) (fresh, u) =
      ground (arith, contains-set k j v d, e.beq_iff j k, e.beq_iff k j, Unique-set k v d u)

  pub Unique-pop : (k : K) (d : Dict K V) → Unique d → Unique (pop k d)
  unfolding pop
  Unique-pop k [] u = tt
  Unique-pop k ((j, w) ∷ d) (fresh, u) = ground (arith, contains-pop k j d, Unique-pop k d u)

  -- a new key goes to the end
  pub set-eq-append :
      (k : K) (v : V) (d : Dict K V) → contains k d ≡ false → set k v d ≡ d ++ ((k, v) ∷ [])
  unfolding set get
  set-eq-append k v [] h = refl
  set-eq-append k v ((j, w) ∷ d) h = ground (arith, set-eq-append k v d)

  -- no key of the second dictionary is in the first
  abbrev Fresh : Dict K V → Dict K V → Type 0
  Fresh d [] = Unit
  Fresh d ((k, v) ∷ other) = (contains k d ≡ false) × Fresh d other

  Fresh-empty : (d : Dict K V) → Fresh [] d
  unfolding get
  Fresh-empty [] = tt
  Fresh-empty ((k, v) ∷ d) = (refl, Fresh-empty d)

  Fresh-set :
      (k : K) (v : V) (d other : Dict K V)
      → contains k other ≡ false
      → Fresh d other
      → Fresh (set k v d) other
  unfolding get
  Fresh-set k v d [] h f = tt
  Fresh-set k v d ((j, w) ∷ other) h (fresh, f) =
      ground (arith, contains-set k j v d, e.beq_iff j k, e.beq_iff k j, Fresh-set k v d other)

  update-append : (d other : Dict K V) → Unique other → Fresh d other → update d other ≡ d ++ other
  unfolding update
  update-append d [] u f = sym (append-nil d)
  update-append d ((k, v) ∷ other) (out, u) (fresh, f) =
      update-append (set k v d) other u (Fresh-set k v d other out f)
      ∙ ap (λ x. x ++ other) (set-eq-append k v d fresh)
      ∙ append_assoc d ((k, v) ∷ []) other

  -- Writing the entries of a dictionary into an empty one, in order, gives it back.
  pub update-empty : (d : Dict K V) → Unique d → update [] d ≡ d
  update-empty d u = update-append [] d u (Fresh-empty d)
