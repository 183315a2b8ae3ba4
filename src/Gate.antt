-- ===== src/Gate.antt =====
-- The shape that the event deduper and the alert cooldown share: a table with one record for each key,
-- a test of the record and the item, and a write of the item's record when the item is let through.
use market_sentinel.Base.{
  ◌≡◌, ap, subst, ◌∙◌, Bool, true, false, Option, some, List, [], ◌∷◌, if◌then◌else◌, Bool-cases,
  inl, inr, filter,
}
use market_sentinel.Base.Eq.{Eq, ◌==◌}
use market_sentinel.Base.Dict.{Dict, get, set, get-set}

-- `key`: the item's key; `record_of`: what is stored for it; `renews`: the test, against the record that
-- stands for the key, if any
pub record Gate (K R E : Type 0) : Type 0 where
  pub key : E → K
  pub record_of : E → R
  pub renews : Option R → E → Bool

module _ {K R E : Type 0} ⦃e : Eq K⦄ where
  unfoldable pub open_gate : Gate K R E → E → Dict K R → Bool × Dict K R
  open_gate g x d =
      if g.renews (get (g.key x) d) x then (true, set (g.key x) (g.record_of x) d) else (false, d)

  -- the items that are let through, in order
  unfoldable pub passed : Gate K R E → List E → Dict K R → List E
  unfolding open_gate
  passed g [] d = []
  passed g (x ∷ xs) d =
      let (through, d') = open_gate g x d in
      let rest = passed g xs d' in if through then x ∷ rest else rest

  -- each item passes the test against the record of the one before it
  abbrev pub Chain : Gate K R E → Option R → List E → Type 0
  Chain g o [] = Unit
  Chain g o (x ∷ xs) = (g.renews o x ≡ true) × Chain g (some (g.record_of x)) xs

  -- the items of one key
  abbrev pub of_key : Gate K R E → K → List E → List E
  of_key g k = filter λ x. g.key x == k

  -- Of each key, the items that are let through follow one another by the test, the first of them
  -- against what the table holds at the start.
  pub passed-Chain :
      (g : Gate K R E) (k : K) (xs : List E) (d : Dict K R)
      → Chain g (get k d) (of_key g k (passed g xs d))
  unfolding passed
  passed-Chain g k [] d = tt
  passed-Chain g k (x ∷ xs) d = elim (Bool-cases (g.renews (get (g.key x) d) x)) [
    | inr off ↦ rw (off, passed) (passed-Chain g k xs d)
    | inl on ↦
        let d' = set (g.key x) (g.record_of x) d in
        let rest = passed-Chain g k xs d' in
        rw (on, passed)
          (elim (Bool-cases (g.key x == k)) [
            | inl same ↦
                let at = (e.beq_iff (g.key x) k).0 same in
                rw same (
                  subst (λ j. g.renews (get j d) x ≡ true) at on,
                  subst (λ o. Chain g o (of_key g k (passed g xs d')))
                      (get-set (g.key x) k (g.record_of x) d
                        ∙ ap (λ b. if b then some (g.record_of x) else get k d) same)
                      rest,
                )
            | inr other ↦ rw other (
                subst (λ o. Chain g o (of_key g k (passed g xs d')))
                  (get-set (g.key x) k (g.record_of x) d
                    ∙ ap (λ b. if b then some (g.record_of x) else get k d) other)
                  rest)
          ])
  ]
