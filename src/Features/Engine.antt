-- ===== src/Features/Engine.antt =====
-- src/market_sentinel/features/engine.py: the features of a symbol from its buffer.
use market_sentinel.Base.{
  Bool, not, ◌||◌, Option, none, some, List, [], ◌∷◌, map, filter, if◌then◌else◌,
}
use market_sentinel.Base.Float.{Float, le, lt, eq, sub, div, num, max_of, min_of}
use market_sentinel.Domain.{FeaturePolicy, MarketBar, MarketFeatures, MarketSnapshot}
use market_sentinel.RingBuffer.{RingBuffer, latest, since}
use market_sentinel.Indicators.{
  ema, rsi_wilder, session_vwap, session_extreme_high, session_extreme_low,
}
use market_sentinel.Session.{Platform, is_same_session}
use market_sentinel.Features.Bars.{completed_minute_bars}
use market_sentinel.Features.Rolling.{price_change, volume_delta, volume_ratio}

module _ {F : Type 0} ⦃f : Float F⦄ where
  -- `high if high_ref is None else max(high_ref, high)`
  abbrev pub raised_to : Option F → F → F
  raised_to none high = high
  raised_to (some high_ref) high = max_of high_ref high

  abbrev pub lowered_to : Option F → F → F
  lowered_to none low = low
  lowered_to (some low_ref) low = min_of low_ref low

  unfoldable pub default_policy : FeaturePolicy F
  default_policy = record {
    max_anchor_lag_s = num 30;
    volume_ratio_lookback = 20;
    bar_seconds = num 60;
  }

  unfoldable pub day_range : MarketSnapshot F → F → F → Option F
  day_range latest high_now low_now =
      if lt low_now high_now
      then some (div (sub latest.price low_now) (sub high_now low_now))
      else none

  unfoldable pub day_change : MarketSnapshot F → Option F
  day_change latest =
      if eq latest.prev_close (num 0)
      then none
      else some (div (sub latest.price latest.prev_close) latest.prev_close)

module _ {F : Type 0} ⦃f : Float F⦄ (lib : Platform F) where
  -- whether `_session_refs` passes over a snapshot
  abbrev pub is_skipped : MarketSnapshot F → MarketSnapshot F → Bool
  is_skipped latest s =
      le latest.market_timestamp s.market_timestamp
      || not (is_same_session lib s.market_timestamp latest.market_timestamp)

  -- one turn of the loop of `_session_refs`
  unfoldable pub noted_ref :
      MarketSnapshot F → Option F × Option F → MarketSnapshot F → Option F × Option F
  unfolding is_same_session session_extreme_high session_extreme_low
  noted_ref latest refs s = if is_skipped latest s then refs else (
    some (raised_to refs.0 (session_extreme_high s)),
    some (lowered_to refs.1 (session_extreme_low s)),
  )

  -- the loop
  unfoldable pub refs_from :
      MarketSnapshot F → Option F × Option F → List (MarketSnapshot F) → Option F × Option F
  unfolding noted_ref
  refs_from latest refs [] = refs
  refs_from latest refs (s ∷ ss) = refs_from latest (noted_ref latest refs s) ss

  -- `_session_refs`
  unfoldable pub session_refs : RingBuffer F → MarketSnapshot F → Option F × Option F
  unfolding refs_from since
  session_refs b latest = refs_from latest (none, none) (since (num 0) b)

  -- `session_snaps`
  unfoldable pub session_snaps : RingBuffer F → MarketSnapshot F → List (MarketSnapshot F)
  unfolding since is_same_session
  session_snaps b latest =
      filter
        (λ (s : MarketSnapshot F). is_same_session lib s.market_timestamp latest.market_timestamp)
        (since (num 0) b)

  abbrev pub closes_of : List (MarketBar F) → List F
  closes_of = map (λ (bar : MarketBar F). bar.close)

  -- the record of the features, once the ratios are computed
  unfoldable pub features_at :
      FeaturePolicy F → RingBuffer F → MarketSnapshot F → Option F → Option F → MarketFeatures F
  unfolding session_refs session_snaps completed_minute_bars price_change volume_delta day_range
      day_change ema rsi_wilder session_vwap session_extreme_high session_extreme_low
  features_at policy b newest ratio_1m ratio_5m =
      let (high_ref, low_ref) = session_refs b newest in
      let bars =
        completed_minute_bars lib (session_snaps b newest) newest.market_timestamp
          policy.bar_seconds in
      let closes = closes_of bars in
      let (vwap, above_vwap) = session_vwap newest in
      record {
        symbol = newest.symbol;
        market_timestamp = newest.market_timestamp;
        received_timestamp = newest.received_timestamp;
        change_1m = price_change lib b newest (num 60) policy;
        change_5m = price_change lib b newest (num 300) policy;
        change_15m = price_change lib b newest (num 900) policy;
        change_day = day_change newest;
        day_range_position =
            day_range newest (raised_to high_ref (session_extreme_high newest))
              (lowered_to low_ref (session_extreme_low newest));
        volume_1m = volume_delta lib b newest (num 60) policy;
        volume_5m = volume_delta lib b newest (num 300) policy;
        volume_ratio_1m = ratio_1m;
        volume_ratio_5m = ratio_5m;
        vwap = vwap;
        above_vwap = above_vwap;
        ema5 = ema 5 closes;
        ema20 = ema 20 closes;
        rsi14 = rsi_wilder 14 closes;
        session_high_ref = high_ref;
        session_low_ref = low_ref;
        session_high_obs = session_extreme_high newest;
        session_low_obs = session_extreme_low newest;
      }

  -- `compute`, once the ratios are computed; `none` is the exception of `volume_ratio`
  unfoldable pub with_ratios :
      FeaturePolicy F
      → RingBuffer F
      → MarketSnapshot F
      → Option (Option F)
      → Option (Option F)
      → Option (Option (MarketFeatures F))
  unfolding features_at
  with_ratios policy b newest (some ratio_1m) (some ratio_5m) =
      some (some (features_at policy b newest ratio_1m ratio_5m))
  with_ratios policy b newest _ _ = none

  -- `compute`; the outer `none` is an exception
  unfoldable pub compute : FeaturePolicy F → RingBuffer F → Option (Option (MarketFeatures F))
  unfolding with_ratios volume_ratio latest
  compute policy b = elim (latest b) [
    | none ↦ some none
    | some newest ↦
        with_ratios policy b newest (volume_ratio lib b newest (num 60) policy)
          (volume_ratio lib b newest (num 300) policy)
  ]
