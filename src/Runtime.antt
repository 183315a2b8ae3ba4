-- ===== src/Runtime.antt =====
-- src/market_sentinel/runtime: the engine whose tick fetches the due symbols and processes each of them.
-- The parts are the other modules'. The telemetry, the intelligence observer and the log lines, which
-- the tick only writes to, are left out.
pub mod Fetch
pub mod Process
pub mod Newest
pub mod Fetched
pub mod Valid
pub mod Ticked
pub mod Marks
use market_sentinel.Base.{ℕ, String, Bool, Option, none, some, List, []}
use market_sentinel.Domain.{
  SchedulerLevel, FeaturePolicy, MarketEvent, MarketFeatures, MarketSnapshot, Signal, SignalTrace,
}
use market_sentinel.Watchlist.{Watchlist}
use market_sentinel.Scheduler.{AdaptiveScheduler}
use market_sentinel.Buffers.{SymbolBuffers}
use market_sentinel.StateStore.{MarketStateStore}
use market_sentinel.Health.{FeedHealthTracker}
use market_sentinel.Pipeline.{SignalPipeline}
use market_sentinel.Warming.{WarmingConfig}

-- The places of a tick that read the monotonic clock. Time passes between them, and each reading is
-- whatever the clock answers there for the symbol at hand.
pub data Moment : Type 0 where
  due kept peeked observed peeked_again fetched processed levelled status age : Moment

-- `Clock`: the readings of one tick
pub record Clock (F : Type 0) : Type 0 where
  pub monotonic : Moment → String → F
  pub now : String → F

-- what the provider does: its source is exhausted, `fetch_quotes` raises, or it answers
pub data Answer (F : Type 0) : Type 0 where
  exhausted : Answer F
  failed : String → Answer F
  quotes : List (MarketSnapshot F) → Answer F

pub record EngineDiagnostics : Type 0 where
  pub out_of_order_count : ℕ
  pub duplicate_timestamp_count : ℕ
  pub recovery_count : ℕ
  pub last_fetch_error : Option String

pub record MarketEngine (F : Type 0) : Type 0 where
  pub watchlist : Watchlist
  pub scheduler : AdaptiveScheduler F
  pub buffers : SymbolBuffers F
  pub states : MarketStateStore F
  pub health : FeedHealthTracker F
  pub feature_policy : FeaturePolicy F
  pub pipeline : SignalPipeline F
  pub warming : WarmingConfig F
  -- `_fetched_symbols`
  pub fetched_symbols : List String
  pub diagnostics : EngineDiagnostics

pub record SymbolTickResult (F : Type 0) : Type 0 where
  pub symbol : String
  pub features : Option (MarketFeatures F)
  pub accepted_events : List (MarketEvent F)
  pub signal_updates : List (Signal F)
  pub traces : List (SignalTrace F)
  pub alert_candidates : List (Signal F)
  pub level_before : SchedulerLevel
  pub level_after : SchedulerLevel

pub record EngineTickResult (F : Type 0) : Type 0 where
  pub symbol_results : List (SymbolTickResult F)
