-- ===== src/StateStore.antt =====
-- src/market_sentinel/market_data/state.py: the state of each symbol, as snapshots and the runtime write
-- it. An argument that is `_UNSET` is `none`.
pub mod Fields
use market_sentinel.Base.{String, Option, none, some, List, [], ◌∷◌}
use market_sentinel.Base.Eq.{string_eq}
use market_sentinel.Base.Dict.{Dict, get, set}
use market_sentinel.Domain.{
  SchedulerLevel, FeedStatus, MarketFeatures, MarketSnapshot, MarketState, Signal,
}

pub record MarketStateStore (F : Type 0) : Type 0 where
  pub states : Dict String (MarketState F)

-- the arguments of `apply_runtime`
pub record RuntimeUpdate (F : Type 0) : Type 0 where
  pub symbol : String
  pub level : SchedulerLevel
  pub feed_status : FeedStatus
  pub feed_latency : Option F
  pub last_update_age : Option F
  pub features : Option (Option (MarketFeatures F))
  pub active_signals : Option (List (Signal F))

module _ {F : Type 0} where
  -- `update_latest`, once the current state is looked up
  abbrev pub with_latest : MarketSnapshot F → Option (MarketState F) → MarketState F
  with_latest snapshot none = record {
    symbol = snapshot.symbol;
    latest = some snapshot;
    level = SchedulerLevel.cold;
    feed_status = FeedStatus.live;
    feed_latency = none;
    last_update_age = none;
    features = none;
    active_signals = [];
  }
  with_latest snapshot (some current) = record {
    symbol = snapshot.symbol;
    latest = some snapshot;
    level = current.level;
    feed_status = current.feed_status;
    feed_latency = current.feed_latency;
    last_update_age = current.last_update_age;
    features = current.features;
    active_signals = current.active_signals;
  }

  unfoldable pub update_latest :
      MarketSnapshot F → MarketStateStore F → MarketState F × MarketStateStore F
  update_latest snapshot s =
      let state = with_latest snapshot (get snapshot.symbol s.states) in
      (state, record { states = set snapshot.symbol state s.states })

  abbrev pub current_latest : Option (MarketState F) → Option (MarketSnapshot F)
  current_latest none = none
  current_latest (some current) = current.latest

  abbrev pub resolved_features :
      Option (Option (MarketFeatures F)) → Option (MarketState F) → Option (MarketFeatures F)
  resolved_features (some features) current = features
  resolved_features none none = none
  resolved_features none (some current) = current.features

  abbrev pub resolved_signals : Option (List (Signal F)) → Option (MarketState F) → List (Signal F)
  resolved_signals (some signals) current = signals
  resolved_signals none none = []
  resolved_signals none (some current) = current.active_signals

  unfoldable pub apply_runtime :
      RuntimeUpdate F → MarketStateStore F → MarketState F × MarketStateStore F
  apply_runtime u s =
      let current = get u.symbol s.states in
      let state : MarketState F = record {
        symbol = u.symbol;
        latest = current_latest current;
        level = u.level;
        feed_status = u.feed_status;
        feed_latency = u.feed_latency;
        last_update_age = u.last_update_age;
        features = resolved_features u.features current;
        active_signals = resolved_signals u.active_signals current;
      } in
      (state, record { states = set u.symbol state s.states })

  -- `get`
  unfoldable pub state_of : String → MarketStateStore F → Option (MarketState F)
  state_of symbol s = get symbol s.states

  unfoldable pub snapshot_for : List String → MarketStateStore F → List (MarketState F)
  snapshot_for [] s = []
  snapshot_for (symbol ∷ symbols) s =
      let rest = snapshot_for symbols s in
      elim (get symbol s.states) [ none ↦ rest | some state ↦ state ∷ rest ]
