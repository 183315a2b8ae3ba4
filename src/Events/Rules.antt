-- ===== src/Events/Rules.antt =====
-- src/market_sentinel/events/rules: the six rules. Each answers no event or one, whose identifier is
-- the argument `id`. The rules but the last do not read the previous features.
use market_sentinel.Base.{
  ℕ, ◌+◌, String, Bool, true, false, not, ◌||◌, Option, none, some, List, [], ◌∷◌, ltb,
  if◌then◌else◌,
}
use market_sentinel.Base.Float.{Float, le, num, sub, div, abs}
use market_sentinel.Domain.{
  EventType, EventDirection, type_value, MarketEvent, MarketFeatures, Metric,
}
use market_sentinel.Events.{
  max_nat, min_nat, rapid_move_severity, volume_spike_severity, move_direction, breakout_severity,
  metric, build_event, ttl_short_s, ttl_long_s, vwap_cross_sev3_5m,
}

abbrev pub same_side : Bool → Bool → Bool
same_side true above = above
same_side false above = not above

module _ {F : Type 0} ⦃f : Float F⦄ where
  abbrev pub rapid_move_at : String → MarketFeatures F → F → Option ℕ → List (MarketEvent F)
  rapid_move_at id current detected_at none = []
  rapid_move_at id current detected_at (some severity) =
      build_event id current EventType.rapid_move
        (move_direction current.change_1m current.change_5m severity) severity detected_at
        (("change_1m", metric current.change_1m) ∷ ("change_5m", metric current.change_5m) ∷ [])
        ttl_short_s (type_value EventType.rapid_move)
      ∷ []

  -- `RapidMoveRule.evaluate`
  unfoldable pub rapid_move_rule : String → MarketFeatures F → F → List (MarketEvent F)
  rapid_move_rule id current detected_at =
      rapid_move_at id current detected_at (rapid_move_severity current.change_1m current.change_5m)

  abbrev pub volume_spike_at : String → MarketFeatures F → F → Option ℕ → List (MarketEvent F)
  volume_spike_at id current detected_at none = []
  volume_spike_at id current detected_at (some severity) =
      build_event id current EventType.volume_spike EventDirection.flat severity detected_at
        (("volume_ratio_1m", metric current.volume_ratio_1m)
          ∷ ("volume_ratio_5m", metric current.volume_ratio_5m)
          ∷ [])
        ttl_long_s (type_value EventType.volume_spike)
      ∷ []

  -- `VolumeSpikeRule.evaluate`
  unfoldable pub volume_spike_rule : String → MarketFeatures F → F → List (MarketEvent F)
  volume_spike_rule id current detected_at =
      volume_spike_at id current detected_at
        (volume_spike_severity current.volume_ratio_1m current.volume_ratio_5m)

  abbrev pub expansion_at :
      String → MarketFeatures F → F → Option ℕ → Option ℕ → List (MarketEvent F)
  expansion_at id current detected_at none volume = []
  expansion_at id current detected_at (some move) none = []
  expansion_at id current detected_at (some move) (some volume) =
      if ltb move 2 || ltb volume 2
      then []
      else (build_event id current EventType.price_volume_expansion
            (move_direction current.change_1m current.change_5m move)
            (min_nat 5 (max_nat move volume + 1)) detected_at
            (("change_1m", metric current.change_1m)
              ∷ ("change_5m", metric current.change_5m)
              ∷ ("volume_ratio_1m", metric current.volume_ratio_1m)
              ∷ ("volume_ratio_5m", metric current.volume_ratio_5m)
              ∷ ("move_severity", Metric.number (num move))
              ∷ ("volume_severity", Metric.number (num volume))
              ∷ [])
            ttl_long_s (type_value EventType.price_volume_expansion)
          ∷ [])

  -- `PriceVolumeExpansionRule.evaluate`
  unfoldable pub price_volume_expansion_rule : String → MarketFeatures F → F → List (MarketEvent F)
  price_volume_expansion_rule id current detected_at =
      expansion_at id current detected_at (rapid_move_severity current.change_1m current.change_5m)
        (volume_spike_severity current.volume_ratio_1m current.volume_ratio_5m)

  abbrev pub breakout_at : String → MarketFeatures F → F → Option F → List (MarketEvent F)
  breakout_at id current detected_at none = []
  breakout_at id current detected_at (some ref) =
      let obs = current.session_high_obs in
      let excess = div (sub obs ref) ref in
      if le ref (num 0)
      then []
      else if le obs ref
      then []
      else (build_event id current EventType.day_high_breakout EventDirection.up
            (breakout_severity excess) detected_at
            (("session_high_ref", Metric.number ref)
              ∷ ("session_high_obs", Metric.number obs)
              ∷ ("excess", Metric.number excess)
              ∷ [])
            ttl_short_s (type_value EventType.day_high_breakout)
          ∷ [])

  -- `DayHighBreakoutRule.evaluate`
  unfoldable pub day_high_breakout_rule : String → MarketFeatures F → F → List (MarketEvent F)
  day_high_breakout_rule id current detected_at =
      breakout_at id current detected_at current.session_high_ref

  abbrev pub breakdown_at : String → MarketFeatures F → F → Option F → List (MarketEvent F)
  breakdown_at id current detected_at none = []
  breakdown_at id current detected_at (some ref) =
      let obs = current.session_low_obs in
      let excess = div (sub ref obs) ref in
      if le ref (num 0)
      then []
      else if le ref obs
      then []
      else (build_event id current EventType.day_low_breakdown EventDirection.down
            (breakout_severity excess) detected_at
            (("session_low_ref", Metric.number ref)
              ∷ ("session_low_obs", Metric.number obs)
              ∷ ("excess", Metric.number excess)
              ∷ [])
            ttl_short_s (type_value EventType.day_low_breakdown)
          ∷ [])

  -- `DayLowBreakdownRule.evaluate`
  unfoldable pub day_low_breakdown_rule : String → MarketFeatures F → F → List (MarketEvent F)
  day_low_breakdown_rule id current detected_at =
      breakdown_at id current detected_at current.session_low_ref

  -- whether the five-minute change makes the cross more severe
  abbrev pub cross_severity : Option F → ℕ
  cross_severity none = 2
  cross_severity (some change) = if le vwap_cross_sev3_5m (abs change) then 3 else 2

  abbrev pub cross_at :
      String → MarketFeatures F → F → Option Bool → Option Bool → Option F → List (MarketEvent F)
  cross_at id current detected_at (some before) (some above) (some vwap) =
      if same_side before above
      then []
      else (build_event id current EventType.vwap_cross
            (if above then EventDirection.up else EventDirection.down)
            (cross_severity current.change_5m) detected_at
            (("vwap", Metric.number vwap)
              ∷ ("above_vwap", Metric.flag above)
              ∷ ("change_5m", metric current.change_5m)
              ∷ [])
            ttl_short_s (type_value EventType.vwap_cross)
          ∷ [])
  cross_at id current detected_at _ _ _ = []

  -- `VwapCrossRule.evaluate`
  unfoldable pub vwap_cross_rule :
      String → Option (MarketFeatures F) → MarketFeatures F → F → List (MarketEvent F)
  vwap_cross_rule id none current detected_at = []
  vwap_cross_rule id (some previous) current detected_at =
      cross_at id current detected_at previous.above_vwap current.above_vwap current.vwap
