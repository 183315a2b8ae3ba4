-- ===== src/Features/Rolling.antt =====
-- src/market_sentinel/features/rolling.py: changes over a window that ends at the newest snapshot.
use market_sentinel.Base.{
  ℕ, zero, suc, ◌+◌, not, Option, none, some, List, [], ◌∷◌, if◌then◌else◌, length,
}
use market_sentinel.Base.Float.{Float, le, lt, eq, sub, mul, div, num, max_of}
use market_sentinel.Domain.{FeaturePolicy, MarketSnapshot}
use market_sentinel.RingBuffer.{RingBuffer, at_or_before}
use market_sentinel.Indicators.{sum_from}
use market_sentinel.Session.{Platform, is_same_session}

module _ {F : Type 0} ⦃f : Float F⦄ where
  -- `step * 60.0` before the newest snapshot
  abbrev pub minutes_before : MarketSnapshot F → ℕ → F
  minutes_before latest step = sub latest.market_timestamp (mul (num step) (num 60))

  -- the samples with one more in front, unless one was missing
  abbrev pub with_sample : Option F → Option (List F) → Option (List F)
  with_sample (some delta) (some deltas) = some (delta ∷ deltas)
  with_sample _ _ = none

  -- `current` against the mean of the samples; the outer `none` is the `ZeroDivisionError` of no samples
  abbrev pub ratio_to : Option F → Option (List F) → Option (Option F)
  ratio_to (some current) (some []) = none
  ratio_to (some current) (some (s ∷ ss)) =
      let baseline = div (sum_from (num 0) (s ∷ ss)) (num (length (s ∷ ss))) in
      if le baseline (num 0) then some none else some (some (div current baseline))
  ratio_to _ _ = some none

module _ {F : Type 0} ⦃f : Float F⦄ (lib : Platform F) where
  -- the checks of `snapshot_as_of`, and of `resolve_anchor`, on what `at_or_before` found
  unfoldable pub checked_as_of :
      F → MarketSnapshot F → F → Option (MarketSnapshot F) → Option (MarketSnapshot F)
  unfolding is_same_session
  checked_as_of timestamp latest max_anchor_lag_s none = none
  checked_as_of timestamp latest max_anchor_lag_s (some found) =
      if not (is_same_session lib found.market_timestamp latest.market_timestamp)
      then none
      else if lt max_anchor_lag_s (sub timestamp found.market_timestamp)
      then none
      else some found

  unfoldable pub snapshot_as_of :
      RingBuffer F → F → MarketSnapshot F → F → Option (MarketSnapshot F)
  unfolding checked_as_of
  snapshot_as_of b timestamp latest max_anchor_lag_s =
      checked_as_of timestamp latest max_anchor_lag_s (at_or_before timestamp b)

  unfoldable pub resolve_anchor :
      RingBuffer F → MarketSnapshot F → F → F → Option (MarketSnapshot F)
  unfolding is_same_session checked_as_of
  resolve_anchor b latest window_s max_anchor_lag_s =
      let t_ref = sub latest.market_timestamp window_s in
      let found = checked_as_of t_ref latest max_anchor_lag_s (at_or_before t_ref b) in
      if not (is_same_session lib t_ref latest.market_timestamp) then none else found

  unfoldable pub price_change : RingBuffer F → MarketSnapshot F → F → FeaturePolicy F → Option F
  unfolding resolve_anchor
  price_change b latest window_s policy =
      elim (resolve_anchor b latest window_s policy.max_anchor_lag_s) [
        | none ↦ none
        | some anchor ↦
            if eq anchor.price (num 0)
            then none
            else some (div (sub latest.price anchor.price) anchor.price)
      ]

  unfoldable pub volume_delta : RingBuffer F → MarketSnapshot F → F → FeaturePolicy F → Option F
  unfolding resolve_anchor
  volume_delta b latest window_s policy =
      elim (resolve_anchor b latest window_s policy.max_anchor_lag_s) [
        | none ↦ none
        | some anchor ↦ some (max_of (num 0) (sub latest.volume anchor.volume))
      ]

  -- one turn of the loop of `_historical_volume_deltas`
  unfoldable pub sample : RingBuffer F → MarketSnapshot F → F → FeaturePolicy F → ℕ → Option F
  unfolding snapshot_as_of volume_delta
  sample b latest window_s policy step =
      elim (snapshot_as_of b (minutes_before latest step) latest policy.max_anchor_lag_s) [
        | none ↦ none
        | some as_of ↦ volume_delta b as_of window_s policy
      ]

  -- the turns of that loop from a step on, as many as are left
  unfoldable pub samples_from :
      RingBuffer F → MarketSnapshot F → F → FeaturePolicy F → ℕ → ℕ → Option (List F)
  unfolding sample
  samples_from b latest window_s policy step zero = some []
  samples_from b latest window_s policy step (suc left) =
      with_sample (sample b latest window_s policy step)
        (samples_from b latest window_s policy (step + 1) left)

  -- `_historical_volume_deltas`
  unfoldable pub historical_volume_deltas :
      RingBuffer F → MarketSnapshot F → F → FeaturePolicy F → Option (List F)
  unfolding samples_from
  historical_volume_deltas b latest window_s policy =
      samples_from b latest window_s policy 1 policy.volume_ratio_lookback

  unfoldable pub volume_ratio :
      RingBuffer F → MarketSnapshot F → F → FeaturePolicy F → Option (Option F)
  unfolding volume_delta historical_volume_deltas
  volume_ratio b latest window_s policy =
      ratio_to (volume_delta b latest window_s policy)
        (historical_volume_deltas b latest window_s policy)
