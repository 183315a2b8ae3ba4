-- ===== src/Domain/Records.antt =====
-- src/market_sentinel/domain/{events,features,models,signals}.py: the frozen dataclasses, over a type
-- of floats.
use market_sentinel.Base.{ℕ, String, Bool, Option, List}
use market_sentinel.Domain.Enums.{
  SchedulerLevel, FeedStatus, EventType, EventDirection, SignalPriority, GeneratedBy,
}

-- the values of `metrics`: a float, a bool or None
pub data Metric (F : Type 0) : Type 0 where
  number : F → Metric F
  flag : Bool → Metric F
  null : Metric F

-- What `cluster.lineage_of` answers: the strings "tape" and "vwap".
pub data Lineage : Type 0 where
  tape vwap : Lineage

-- What `cluster.classify_family` answers: seven strings.
pub data Family : Type 0 where
  price_volume breakout breakdown volume move vwap other : Family

pub record MarketEvent (F : Type 0) : Type 0 where
  pub id : String
  pub symbol : String
  pub type : EventType
  pub direction : EventDirection
  pub severity : ℕ
  pub market_timestamp : F
  pub received_timestamp : F
  pub detected_timestamp : F
  pub metrics : List (String × Metric F)
  pub dedupe_key : String
  pub ttl_s : F
  pub rule_name : String

pub record FeaturePolicy (F : Type 0) : Type 0 where
  pub max_anchor_lag_s : F
  pub volume_ratio_lookback : ℕ
  pub bar_seconds : F

pub record MarketBar (F : Type 0) : Type 0 where
  pub symbol : String
  pub start_timestamp : F
  pub end_timestamp : F
  pub open_price : F
  pub high : F
  pub low : F
  pub close : F
  pub volume : Option F
  pub turnover : Option F

pub record MarketFeatures (F : Type 0) : Type 0 where
  pub symbol : String
  pub market_timestamp : F
  pub received_timestamp : F
  pub change_1m : Option F
  pub change_5m : Option F
  pub change_15m : Option F
  pub change_day : Option F
  pub day_range_position : Option F
  pub volume_1m : Option F
  pub volume_5m : Option F
  pub volume_ratio_1m : Option F
  pub volume_ratio_5m : Option F
  pub vwap : Option F
  pub above_vwap : Option Bool
  pub ema5 : Option F
  pub ema20 : Option F
  pub rsi14 : Option F
  pub session_high_ref : Option F
  pub session_low_ref : Option F
  pub session_high_obs : F
  pub session_low_obs : F

pub record MarketSnapshot (F : Type 0) : Type 0 where
  pub symbol : String
  pub price : F
  pub open_price : F
  pub high : F
  pub low : F
  pub prev_close : F
  pub volume : F
  pub turnover : Option F
  pub market_timestamp : F
  pub received_timestamp : F

pub record WatchItem : Type 0 where
  pub symbol : String
  pub enabled : Bool

pub record Signal (F : Type 0) : Type 0 where
  pub id : String
  pub event_ids : List String
  pub symbol : String
  pub family : Family
  pub direction : EventDirection
  pub priority : SignalPriority
  pub title : String
  pub summary : String
  pub generated_by : GeneratedBy
  pub market_timestamp : F
  pub received_timestamp : F
  pub detected_timestamp : F
  pub signal_created_timestamp : F
  pub expires_at : Option F

pub record MarketState (F : Type 0) : Type 0 where
  pub symbol : String
  pub latest : Option (MarketSnapshot F)
  pub level : SchedulerLevel
  pub feed_status : FeedStatus
  pub feed_latency : Option F
  pub last_update_age : Option F
  pub features : Option (MarketFeatures F)
  pub active_signals : List (Signal F)

pub record SignalTrace (F : Type 0) : Type 0 where
  pub signal_id : String
  pub event_ids : List String
  pub rule_names : List String
  pub features : MarketFeatures F
  pub family : Family
  pub direction : EventDirection
  pub priority : SignalPriority
  pub priority_reason : String
  pub detected_timestamp : F
  pub signal_created_timestamp : F

pub record SignalPipelineResult (F : Type 0) : Type 0 where
  pub accepted_events : List (MarketEvent F)
  pub signal_updates : List (Signal F)
  pub traces : List (SignalTrace F)
  pub alert_candidates : List (Signal F)
