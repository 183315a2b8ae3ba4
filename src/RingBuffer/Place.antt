-- ===== src/RingBuffer/Place.antt =====
-- The insertion by bisection is the insertion into a list in order of time, and keeps the order.
use market_sentinel.Base.{
  ◌≡◌, refl, ap, Bool, true, false, Option, none, some, List, [], ◌∷◌, arith, if◌then◌else◌, All,
  Bool-cases, inl, inr,
}
use market_sentinel.Base.Float.{Float, IsOrdered, le, lt, eq, ◌≼◌, ◌≺◌}
use market_sentinel.Base.Float.Order.{lt_trans, lt_of_not_lt_ne, lt_of_lt_of_le, le_of_lt}
use market_sentinel.Domain.{MarketSnapshot}
use market_sentinel.RingBuffer.{insert_by_time}

module _ {F : Type 0} ⦃f : Float F⦄ where
  -- insertion by a walk over the list
  abbrev pub place : MarketSnapshot F → List (MarketSnapshot F) → List (MarketSnapshot F)
  place s [] = s ∷ []
  place s (x ∷ xs) =
      let rest = place s xs in
      if lt x.market_timestamp s.market_timestamp
      then x ∷ rest
      else if eq x.market_timestamp s.market_timestamp
      then s ∷ xs
      else s ∷ (x ∷ xs)

  pub insert_by_time-eq-place :
      (s : MarketSnapshot F) (items : List (MarketSnapshot F))
      → insert_by_time s items ≡ place s items
  unfolding insert_by_time
  insert_by_time-eq-place s [] = refl
  insert_by_time-eq-place s (x ∷ xs) = ground (arith, insert_by_time-eq-place s xs)

  -- strictly increasing market timestamps
  abbrev pub Ascending : List (MarketSnapshot F) → Type 0
  Ascending [] = Unit
  Ascending (x ∷ xs) = All (λ y. x.market_timestamp ≺ y.market_timestamp) xs × Ascending xs

  pub All-place {κ} :
      (P : MarketSnapshot F → Type κ) (s : MarketSnapshot F) (xs : List (MarketSnapshot F))
      → P s
      → All P xs
      → All P (place s xs)
  All-place P s [] p h = (p, tt)
  All-place P s (x ∷ xs) p (hx, h) = elim (Bool-cases (lt x.market_timestamp s.market_timestamp)) [
    | inl e ↦ rw e (hx, All-place P s xs p h)
    | inr e ↦ rw e (elim (Bool-cases (eq x.market_timestamp s.market_timestamp)) [
      | inl q ↦ rw q (p, h)
      | inr q ↦ rw q (p, (hx, h))
    ])
  ]

  module _ (laws : IsOrdered F) where
    -- what is above one time is above every earlier one
    pub All-lt_trans :
        (a b : F) (xs : List (MarketSnapshot F))
        → a ≼ b
        → All (λ y. b ≺ y.market_timestamp) xs
        → All (λ y. a ≺ y.market_timestamp) xs
    All-lt_trans a b [] h k = tt
    All-lt_trans a b (x ∷ xs) h (k, ks) = (
      market_sentinel.Base.Float.Order.lt_of_le_of_lt laws a b x.market_timestamp h k,
      All-lt_trans a b xs h ks,
    )

    pub Ascending-place :
        (s : MarketSnapshot F) (xs : List (MarketSnapshot F))
        → Ascending xs
        → Ascending (place s xs)
    Ascending-place s [] h = (tt, tt)
    Ascending-place s (x ∷ xs) (above, h) =
        elim (Bool-cases (lt x.market_timestamp s.market_timestamp)) [
          | inl e ↦ rw e (
            All-place (λ y. x.market_timestamp ≺ y.market_timestamp) s xs e above,
            Ascending-place s xs h,
          )
          | inr e ↦ rw e (elim (Bool-cases (eq x.market_timestamp s.market_timestamp)) [
            | inl q ↦ rw q (
              All-lt_trans s.market_timestamp x.market_timestamp xs
                  (ground (arith, laws.eq-eq-le x.market_timestamp s.market_timestamp)) above,
              h,
            )
            | inr q ↦
                let below = lt_of_not_lt_ne laws x.market_timestamp s.market_timestamp e q in
                rw q (
                  (
                    below,
                    All-lt_trans s.market_timestamp x.market_timestamp xs
                        (le_of_lt laws s.market_timestamp x.market_timestamp below) above,
                  ),
                  (above, h),
                )
          ])
        ]
