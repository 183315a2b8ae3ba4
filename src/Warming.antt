-- ===== src/Warming.antt =====
-- src/market_sentinel/orchestration/warming.py: the attention level that features and events ask for.
pub mod Request
use market_sentinel.Base.{
  ℕ, String, Bool, true, false, ◌||◌, Option, none, some, List, any, leb, if◌then◌else◌,
}
use market_sentinel.Base.Float.{Float, le, lt, dec, abs}
use market_sentinel.Domain.{EventType, SchedulerLevel, MarketEvent, MarketFeatures}

pub record WarmingConfig (F : Type 0) : Type 0 where
  pub hot_event_severity : ℕ
  pub hot_volume_ratio_5m : F
  pub hot_change_5m : F
  pub warm_change_1m : F
  pub warm_change_5m : F
  pub warm_volume_ratio : F

pub record LevelRequest : Type 0 where
  pub symbol : String
  pub level : SchedulerLevel
  pub reason : String

-- membership in `_BREAKOUT_TYPES`
abbrev pub is_breakout : EventType → Bool
is_breakout EventType.day_high_breakout = true
is_breakout EventType.day_low_breakdown = true
is_breakout _ = false

module _ {F : Type 0} ⦃f : Float F⦄ where
  -- the defaults of the dataclass
  abbrev pub default_config : WarmingConfig F
  default_config = record {
    hot_event_severity = 3;
    hot_volume_ratio_5m = dec 20 1;
    hot_change_5m = dec 12 3;
    warm_change_1m = dec 4 3;
    warm_change_5m = dec 8 3;
    warm_volume_ratio = dec 15 1;
  }

  -- `x is not None and x >= bound`
  abbrev pub reaches : Option F → F → Bool
  reaches none bound = false
  reaches (some x) bound = le bound x

  -- `x is not None and abs(x) >= bound`
  abbrev pub moves : Option F → F → Bool
  moves none bound = false
  moves (some x) bound = le bound (abs x)

  -- `ref is not None and obs > ref`
  abbrev pub above : Option F → F → Bool
  above none obs = false
  above (some ref) obs = lt ref obs

  -- `ref is not None and obs < ref`
  abbrev pub below : Option F → F → Bool
  below none obs = false
  below (some ref) obs = lt obs ref

  -- the tests of `_is_hot` on the features
  unfoldable pub hot_features : WarmingConfig F → Option (MarketFeatures F) → Bool
  hot_features cfg none = false
  hot_features cfg (some features) =
      reaches features.volume_ratio_5m cfg.hot_volume_ratio_5m
      || (moves features.change_5m cfg.hot_change_5m
          || (above features.session_high_ref features.session_high_obs
              || below features.session_low_ref features.session_low_obs))

  -- `_is_hot`
  unfoldable pub is_hot : WarmingConfig F → Option (MarketFeatures F) → List (MarketEvent F) → Bool
  unfolding hot_features
  is_hot cfg features events =
      any (λ (e : MarketEvent F). leb cfg.hot_event_severity e.severity) events
      || (any (λ (e : MarketEvent F). is_breakout e.type) events || hot_features cfg features)

  -- `_is_warm`
  unfoldable pub is_warm : WarmingConfig F → Option (MarketFeatures F) → Bool
  is_warm cfg none = false
  is_warm cfg (some features) =
      moves features.change_1m cfg.warm_change_1m
      || (moves features.change_5m cfg.warm_change_5m
          || (reaches features.volume_ratio_1m cfg.warm_volume_ratio
              || reaches features.volume_ratio_5m cfg.warm_volume_ratio))

  unfoldable pub request :
      WarmingConfig F → String → Option (MarketFeatures F) → List (MarketEvent F) → LevelRequest
  unfolding is_hot is_warm
  request cfg symbol features events =
      if is_hot cfg features events
      then record { symbol = symbol; level = SchedulerLevel.hot; reason = "strong" }
      else if is_warm cfg features
      then record { symbol = symbol; level = SchedulerLevel.warm; reason = "precursor" }
      else record { symbol = symbol; level = SchedulerLevel.cold; reason = "quiet" }
