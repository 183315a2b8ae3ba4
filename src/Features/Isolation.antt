-- ===== src/Features/Isolation.antt =====
-- The features of a symbol come from the session of its newest snapshot alone.
use mathlib.Core.Bool.{false≢true}
use mathlib.Core.Option.{some-injective}
use market_sentinel.Base.{
  ℕ, zero, suc, ◌+◌, String, ◌≡◌, refl, ap, sym, subst, ◌∙◌, false, Option, none, some, List, [],
  ◌∷◌, arith, Bool-cases, Option-cases, inl, inr, filter, is_some,
}
use market_sentinel.Base.Eq.{string_eq, beq_refl}
use market_sentinel.Base.Float.{Float, IsOrdered, le, lt, sub, num}
use market_sentinel.Domain.{FeaturePolicy, MarketSnapshot}
use market_sentinel.RingBuffer.{RingBuffer, latest, since, at_or_before}
use market_sentinel.RingBuffer.Place.{Ascending}
use market_sentinel.Session.{Platform, session_id, is_same_session}
use market_sentinel.Features.Rolling.{
  checked_as_of, resolve_anchor, snapshot_as_of, minutes_before, price_change, volume_delta, sample,
  samples_from, historical_volume_deltas, volume_ratio,
}
use market_sentinel.Features.Engine.{
  session_refs, noted_ref, refs_from, session_snaps, features_at, with_ratios, compute,
}
use market_sentinel.Features.Day.{
  filter_comm, filter_idem, filter-kept, filter-left, last?-filter, IsCalendar, of_day, only_day,
  of_day_only, at_or_before-only_day,
}

module _ {F : Type 0} ⦃f : Float F⦄ (lib : Platform F) where
  module _ (laws : IsOrdered F) (cal : IsCalendar lib) (newest : MarketSnapshot F) where
    abbrev day : String
    day = session_id lib newest.market_timestamp

    checked_as_of-of_day_only :
        (t lag : F) (s : MarketSnapshot F) (o : Option (MarketSnapshot F))
        → session_id lib s.market_timestamp ≡ day
        → checked_as_of lib t s lag (of_day_only lib day o) ≡ checked_as_of lib t s lag o
    unfolding checked_as_of is_same_session
    checked_as_of-of_day_only t lag s none same = refl
    checked_as_of-of_day_only t lag s (some a) same = elim (Bool-cases (of_day lib day a)) [
      | inl p ↦ rw (p, same) (rw p refl)
      | inr p ↦ rw (p, same) (rw p refl)
    ]

    -- what was found is of the day
    checked_as_of-day :
        (t lag : F) (o : Option (MarketSnapshot F)) (a : MarketSnapshot F)
        → checked_as_of lib t newest lag o ≡ some a
        → session_id lib a.market_timestamp ≡ day
    unfolding checked_as_of is_same_session
    checked_as_of-day t lag none a e = absurd (false≢true (ap is_some e))
    checked_as_of-day t lag (some x) a e = elim (Bool-cases (of_day lib day x)) [
      | inl p ↦ elim (Bool-cases (lt lag (sub t x.market_timestamp))) [
        | inl q ↦ absurd (false≢true (ap is_some (rw (p, q) at e)))
        | inr q ↦
            subst (λ (z : MarketSnapshot F). session_id lib z.market_timestamp ≡ day)
              (some-injective _ _ (rw (p, q) at e))
              ((string_eq.beq_iff (session_id lib x.market_timestamp) day).0 p)
      ]
      | inr p ↦ absurd (false≢true (ap is_some (rw p at e)))
    ]

    -- the buffer is in order of time, and the newest snapshot is its last
    module _ (b : RingBuffer F) (h : Ascending b.items) (l : latest b ≡ some newest) where
      found-only_day :
          (t lag : F) (s : MarketSnapshot F)
          → session_id lib s.market_timestamp ≡ day
          → checked_as_of lib t s lag (at_or_before t (only_day lib day b))
            ≡ checked_as_of lib t s lag (at_or_before t b)
      found-only_day t lag s same =
          ap (checked_as_of lib t s lag) (at_or_before-only_day lib laws cal newest t b h l)
          ∙ checked_as_of-of_day_only t lag s (at_or_before t b) same

      resolve_anchor-only_day :
          (s : MarketSnapshot F) (window lag : F)
          → session_id lib s.market_timestamp ≡ day
          → resolve_anchor lib (only_day lib day b) s window lag ≡ resolve_anchor lib b s window lag
      unfolding resolve_anchor
      resolve_anchor-only_day s window lag same =
          rw (found-only_day (sub s.market_timestamp window) lag s same) refl

      price_change-only_day :
          (window : F) (policy : FeaturePolicy F)
          → price_change lib (only_day lib day b) newest window policy
            ≡ price_change lib b newest window policy
      unfolding price_change
      price_change-only_day window policy =
          rw (price_change, resolve_anchor-only_day newest window policy.max_anchor_lag_s refl) refl

      volume_delta-only_day :
          (s : MarketSnapshot F) (window : F) (policy : FeaturePolicy F)
          → session_id lib s.market_timestamp ≡ day
          → volume_delta lib (only_day lib day b) s window policy
            ≡ volume_delta lib b s window policy
      unfolding volume_delta
      volume_delta-only_day s window policy same =
          rw (volume_delta, resolve_anchor-only_day s window policy.max_anchor_lag_s same) refl

      sample-only_day :
          (window : F) (policy : FeaturePolicy F) (step : ℕ)
          → sample lib (only_day lib day b) newest window policy step
            ≡ sample lib b newest window policy step
      unfolding sample snapshot_as_of
      sample-only_day window policy step =
          let t = minutes_before newest step in
          let lag = policy.max_anchor_lag_s in
          elim (Option-cases (checked_as_of lib t newest lag (at_or_before t b))) [
            | inl e ↦ rw (sample, found-only_day t lag newest refl, e) refl
            | inr (a, e) ↦
                rw (sample, found-only_day t lag newest refl, e)
                  (volume_delta-only_day a window policy
                    (checked_as_of-day t lag (at_or_before t b) a e))
          ]

      samples_from-only_day :
          (window : F) (policy : FeaturePolicy F) (step left : ℕ)
          → samples_from lib (only_day lib day b) newest window policy step left
            ≡ samples_from lib b newest window policy step left
      unfolding samples_from
      samples_from-only_day window policy step zero = refl
      samples_from-only_day window policy step (suc left) =
          rw
            (
              samples_from,
              sample-only_day window policy step,
              samples_from-only_day window policy (step + 1) left,
            )
            refl

      volume_ratio-only_day :
          (window : F) (policy : FeaturePolicy F)
          → volume_ratio lib (only_day lib day b) newest window policy
            ≡ volume_ratio lib b newest window policy
      unfolding volume_ratio historical_volume_deltas
      volume_ratio-only_day window policy =
          rw
            (
              volume_ratio,
              volume_delta-only_day newest window policy refl,
              samples_from-only_day window policy 1 policy.volume_ratio_lookback,
            )
            refl

    noted_ref_off :
        (refs : Option F × Option F) (x : MarketSnapshot F)
        → of_day lib day x ≡ false
        → noted_ref lib newest refs x ≡ refs
    unfolding noted_ref is_same_session
    noted_ref_off refs x p = ground (arith, p)

    refs_from-filter :
        (refs : Option F × Option F) (xs : List (MarketSnapshot F))
        → refs_from lib newest refs (filter (of_day lib day) xs) ≡ refs_from lib newest refs xs
    unfolding refs_from
    refs_from-filter refs [] = refl
    refs_from-filter refs (x ∷ xs) = elim (Bool-cases (of_day lib day x)) [
      | inl p ↦
          ap (refs_from lib newest refs) (filter-kept (of_day lib day) x xs p)
          ∙ refs_from-filter (noted_ref lib newest refs x) xs
      | inr p ↦
          ap (refs_from lib newest refs) (filter-left (of_day lib day) x xs p)
          ∙ refs_from-filter refs xs
          ∙ ap (λ r. refs_from lib newest r xs) (sym (noted_ref_off refs x p))
    ]

    session_refs-only_day :
        (b : RingBuffer F)
        → session_refs lib (only_day lib day b) newest ≡ session_refs lib b newest
    unfolding session_refs since
    session_refs-only_day b =
        let positive = λ (i : MarketSnapshot F). le (num 0) i.market_timestamp in
        ap (refs_from lib newest (none, none)) (filter_comm positive (of_day lib day) b.items)
        ∙ refs_from-filter (none, none) (filter positive b.items)

    session_snaps-only_day :
        (b : RingBuffer F)
        → session_snaps lib (only_day lib day b) newest ≡ session_snaps lib b newest
    unfolding session_snaps since is_same_session
    session_snaps-only_day b =
        let positive = λ (i : MarketSnapshot F). le (num 0) i.market_timestamp in
        ap (filter (of_day lib day)) (filter_comm positive (of_day lib day) b.items)
        ∙ filter_idem (of_day lib day) (filter positive b.items)

    features_at-only_day :
        (policy : FeaturePolicy F) (b : RingBuffer F) (r s : Option F)
        → Ascending b.items
        → latest b ≡ some newest
        → features_at lib policy (only_day lib day b) newest r s
          ≡ features_at lib policy b newest r s
    unfolding features_at
    features_at-only_day policy b r s h l =
        let a1 = price_change-only_day b h l (num 60) policy in
        let a5 = price_change-only_day b h l (num 300) policy in
        let a15 = price_change-only_day b h l (num 900) policy in
        let v1 = volume_delta-only_day b h l newest (num 60) policy refl in
        let v5 = volume_delta-only_day b h l newest (num 300) policy refl in
        rw (features_at, a1, a5, a15, v1, v5, session_refs-only_day b, session_snaps-only_day b)
          refl

    with_ratios-only_day :
        (policy : FeaturePolicy F) (b : RingBuffer F) (r s : Option (Option F))
        → Ascending b.items
        → latest b ≡ some newest
        → with_ratios lib policy (only_day lib day b) newest r s
          ≡ with_ratios lib policy b newest r s
    unfolding with_ratios
    with_ratios-only_day policy b none s h l = refl
    with_ratios-only_day policy b (some r) none h l = refl
    with_ratios-only_day policy b (some r) (some s) h l =
        ap (λ m. some (some m)) (features_at-only_day policy b r s h l)

    latest-only_day :
        (b : RingBuffer F) → latest b ≡ some newest → latest (only_day lib day b) ≡ some newest
    unfolding latest
    latest-only_day b l = last?-filter (of_day lib day) b.items newest l (beq_refl day)

    -- The features of a buffer, in order of time, are those of the snapshots of its newest one's session
    -- alone: no snapshot of another day reaches any of them, whatever the days before left in the buffer,
    -- where a day is one stretch of time.
    pub compute-only_day :
        (policy : FeaturePolicy F) (b : RingBuffer F)
        → Ascending b.items
        → latest b ≡ some newest
        → compute lib policy (only_day lib day b) ≡ compute lib policy b
    unfolding compute
    compute-only_day policy b h l =
        let r = volume_ratio-only_day b h l (num 60) policy in
        let s = volume_ratio-only_day b h l (num 300) policy in
        rw (compute, latest-only_day b l, l, r, s)
          (with_ratios-only_day policy b (volume_ratio lib b newest (num 60) policy)
            (volume_ratio lib b newest (num 300) policy) h l)
