-- ===== src/Features/DayRange.antt =====
-- The extremes of the session, and where the newest price stands between them.
use mathlib.Core.Bool.{false≢true}
use mathlib.Core.Option.{some-injective}
use market_sentinel.Base.{
  ◌≡◌, ap, subst, ◌∙◌, ◌⊎◌, true, false, Option, none, some, List, [], ◌∷◌, arith, All, Bool-cases,
  Option-cases, inl, inr, is_some,
}
use market_sentinel.Base.Float.{
  Float, IsOrdered, IsMonotone, lt, sub, div, num, max_of, min_of, ◌≼◌, ◌≺◌,
}
use market_sentinel.Base.Float.Order.{le_max, min_le}
use market_sentinel.Domain.{FeaturePolicy, MarketFeatures, MarketSnapshot}
use market_sentinel.RingBuffer.{RingBuffer, latest, since}
use market_sentinel.Indicators.{session_extreme_high, session_extreme_low}
use market_sentinel.Session.{Platform}
use market_sentinel.Features.Rolling.{volume_ratio}
use market_sentinel.Features.Engine.{
  raised_to, lowered_to, is_skipped, noted_ref, refs_from, session_refs, day_range, features_at,
  with_ratios, compute,
}

-- Division of a part by its whole does not leave the unit interval.
pub record IsFraction (F : Type 0) ⦃f : Float F⦄ : Type 0 where
  pub div_nonneg : (a b : F) → num 0 ≼ a → num 0 ≺ b → num 0 ≼ div a b
  pub div_le_one : (a b : F) → num 0 ≼ a → a ≼ b → num 0 ≺ b → div a b ≼ num 1

module _ {F : Type 0} ⦃f : Float F⦄ where
  -- both extremes lie within the references
  abbrev pub Within : Option F × Option F → F → F → Type 0
  Within (some high_ref, some low_ref) high low = (high ≼ high_ref) × (low_ref ≼ low)
  Within _ high low = ⊥

  -- a position in the unit interval, if there is one
  abbrev pub InUnit : Option F → Type 0
  InUnit none = Unit
  InUnit (some r) = (num 0 ≼ r) × (r ≼ num 1)

  module _ (laws : IsOrdered F) (lib : Platform F) (newest : MarketSnapshot F) where
    Within-noted :
        (refs : Option F × Option F) (s : MarketSnapshot F) (high low : F)
        → Within refs high low
        → Within (noted_ref lib newest refs s) high low
    unfolding noted_ref
    Within-noted (some h, some l) s high low (p, q) = elim (Bool-cases (is_skipped lib newest s)) [
      | inl e ↦ rw e (p, q)
      | inr e ↦ rw e (
        laws.le_trans high h (max_of h (session_extreme_high s)) p
            (le_max laws h (session_extreme_high s)).0,
        laws.le_trans (min_of l (session_extreme_low s)) l low
            (min_le laws l (session_extreme_low s)).0 q,
      )
    ]
    Within-noted (some h, none) s high low p = absurd p
    Within-noted (none, l) s high low p = absurd p

    Within-refs_from :
        (refs : Option F × Option F) (ss : List (MarketSnapshot F)) (high low : F)
        → Within refs high low
        → Within (refs_from lib newest refs ss) high low
    unfolding refs_from
    Within-refs_from refs [] high low h = h
    Within-refs_from refs (s ∷ ss) high low h =
        Within-refs_from (noted_ref lib newest refs s) ss high low (Within-noted refs s high low h)

    Within-first :
        (refs : Option F × Option F) (s : MarketSnapshot F)
        → is_skipped lib newest s ≡ false
        → Within (noted_ref lib newest refs s) (session_extreme_high s) (session_extreme_low s)
    unfolding noted_ref
    Within-first (none, none) s e = rw e (laws.le_refl _, laws.le_refl _)
    Within-first (none, some l) s e =
        rw e (laws.le_refl _, (min_le laws l (session_extreme_low s)).1)
    Within-first (some h, none) s e =
        rw e ((le_max laws h (session_extreme_high s)).1, laws.le_refl _)
    Within-first (some h, some l) s e =
        rw e ((le_max laws h (session_extreme_high s)).1, (min_le laws l (session_extreme_low s)).1)

    refs_from-Within :
        (refs : Option F × Option F) (ss : List (MarketSnapshot F))
        → All
            (λ s.
              (is_skipped lib newest s ≡ true)
              ⊎ Within
                  (refs_from lib newest refs ss)
                  (session_extreme_high s)
                  (session_extreme_low s))
            ss
    unfolding refs_from
    refs_from-Within refs [] = tt
    refs_from-Within refs (s ∷ ss) = (
      elim (Bool-cases (is_skipped lib newest s)) [
        | inl e ↦ inl e
        | inr e ↦ inr (
            Within-refs_from (noted_ref lib newest refs s) ss (session_extreme_high s)
              (session_extreme_low s) (Within-first refs s e))
      ],
      refs_from-Within (noted_ref lib newest refs s) ss,
    )

    -- The extremes of every snapshot of the session that is earlier than the newest one lie within the
    -- session's references, which are there as soon as there is such a snapshot.
    pub session_refs-Within :
        (b : RingBuffer F)
        → All
            (λ s.
              (is_skipped lib newest s ≡ true)
              ⊎ Within (session_refs lib b newest) (session_extreme_high s) (session_extreme_low s))
            (since (num 0) b)
    unfolding session_refs
    session_refs-Within b = refs_from-Within (none, none) (since (num 0) b)

    raised_to-price : (o : Option F) → newest.price ≼ raised_to o (session_extreme_high newest)
    unfolding session_extreme_high
    raised_to-price none = (le_max laws newest.price newest.high).0
    raised_to-price (some h) =
        laws.le_trans newest.price (session_extreme_high newest) _
          (le_max laws newest.price newest.high).0 (le_max laws h (session_extreme_high newest)).1

    lowered_to-price : (o : Option F) → lowered_to o (session_extreme_low newest) ≼ newest.price
    unfolding session_extreme_low
    lowered_to-price none = (min_le laws newest.price newest.low).0
    lowered_to-price (some l) =
        laws.le_trans _ (session_extreme_low newest) newest.price
          (min_le laws l (session_extreme_low newest)).1 (min_le laws newest.price newest.low).0

    module _ (mono : IsMonotone F) (frac : IsFraction F) where
      day_range-InUnit :
          (high low : F)
          → low ≼ newest.price
          → newest.price ≼ high
          → InUnit (day_range newest high low)
      unfolding day_range
      day_range-InUnit high low below above = elim (Bool-cases (lt low high)) [
        | inr e ↦ rw e tt
        | inl e ↦
            let part : num 0 ≼ sub newest.price low = mono.sub_nonneg newest.price low ∙ below in
            let whole : num 0 ≺ sub high low = ground (
              arith,
              laws.lt-eq-not-le (num 0) (sub high low),
              mono.sub_nonpos high low,
              laws.lt-eq-not-le low high,
            ) in
            rw e (
              frac.div_nonneg (sub newest.price low) (sub high low) part whole,
              frac.div_le_one (sub newest.price low) (sub high low) part
                  (mono.sub_mono newest.price high low above) whole,
            )
      ]

module _ {F : Type 0} ⦃f : Float F⦄ (laws : IsOrdered F) (mono : IsMonotone F)
    (frac : IsFraction F) where
  features_at-InUnit :
      (lib : Platform F) (policy : FeaturePolicy F) (b : RingBuffer F) (newest : MarketSnapshot F)
      (r s : Option F)
      → InUnit (features_at lib policy b newest r s).day_range_position
  unfolding features_at
  features_at-InUnit lib policy b newest r s =
      let (h, l) = session_refs lib b newest in
      day_range-InUnit laws lib newest mono frac (raised_to h (session_extreme_high newest))
        (lowered_to l (session_extreme_low newest)) (lowered_to-price laws lib newest l)
        (raised_to-price laws lib newest h)

  with_ratios-InUnit :
      (lib : Platform F) (policy : FeaturePolicy F) (b : RingBuffer F) (newest : MarketSnapshot F)
      (r s : Option (Option F)) (m : MarketFeatures F)
      → with_ratios lib policy b newest r s ≡ some (some m)
      → InUnit m.day_range_position
  unfolding with_ratios
  with_ratios-InUnit lib policy b newest none s m e = absurd (false≢true (ap is_some e))
  with_ratios-InUnit lib policy b newest (some r) none m e = absurd (false≢true (ap is_some e))
  with_ratios-InUnit lib policy b newest (some r) (some s) m e =
      subst (λ (x : MarketFeatures F). InUnit x.day_range_position)
        (some-injective _ _ (some-injective _ _ e)) (features_at-InUnit lib policy b newest r s)

  -- The position in the day's range that `compute` answers, if it answers one, is not below zero and
  -- not above one, whatever the buffer holds: the newest price stands between the extremes, which take
  -- it in. Differences keep the order of their operands, and a part divided by its whole is in the unit
  -- interval.
  pub day_range_position-InUnit :
      (lib : Platform F) (policy : FeaturePolicy F) (b : RingBuffer F) (m : MarketFeatures F)
      → compute lib policy b ≡ some (some m)
      → InUnit m.day_range_position
  unfolding compute
  day_range_position-InUnit lib policy b m e = elim (Option-cases (latest b)) [
    | inl l ↦ absurd (false≢true (ap is_some (some-injective _ _ (rw (compute, l) at e))))
    | inr (newest, l) ↦
        with_ratios-InUnit lib policy b newest (volume_ratio lib b newest (num 60) policy)
          (volume_ratio lib b newest (num 300) policy) m (rw (compute, l) at e)
  ]
