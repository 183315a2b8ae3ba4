-- ===== src/Ipc/Mapping.antt =====
-- src/market_sentinel/ipc/mapping.py: the engine's state and a tick's alerts, for the wire. What the
-- intelligence registry shows of a signal, if it is there, is the argument `view`.
use market_sentinel.Base.{String, Bool, Option, none, some, List, [], ◌∷◌, ◌++◌, map, length}
use market_sentinel.Base.Float.{Float}
use market_sentinel.Domain.{
  SchedulerLevel, level_value, FeedStatus, status_value, direction_value, priority_value, WatchItem,
  MarketFeatures, MarketSnapshot, MarketState, Signal,
}
use market_sentinel.Watchlist
use market_sentinel.StateStore.{state_of}
use market_sentinel.Health.{aggregate_status}
use market_sentinel.Priority.{family_value}
use market_sentinel.Features.Bars.{max_from}
use market_sentinel.Runtime.{MarketEngine, SymbolTickResult, EngineTickResult}
use market_sentinel.Ipc.Dto.{
  WireIntelligence, WireSignal, WireSymbolState, WireMarketState, WireAlertCandidate,
}

module _ {F : Type 0} where
  unfoldable pub map_signal : Option (WireIntelligence F) → Signal F → WireSignal F
  map_signal intelligence s = record {
    id = s.id;
    family = family_value s.family;
    direction = direction_value s.direction;
    priority = priority_value s.priority;
    title = s.title;
    summary = s.summary;
    intelligence = intelligence;
  }

  unfoldable pub map_alert_candidate : Signal F → WireAlertCandidate
  map_alert_candidate s = record {
    id = s.id;
    symbol = s.symbol;
    family = family_value s.family;
    direction = direction_value s.direction;
    priority = priority_value s.priority;
    title = s.title;
    summary = s.summary;
  }

  -- `None if features is None else features.x`, for an `x` that may be None and one that may not
  abbrev pub feature :
      {A : Type 0} → (MarketFeatures F → Option A) → Option (MarketFeatures F) → Option A
  feature x none = none
  feature x (some features) = x features

  -- `None if latest is None else latest.x`
  abbrev pub latest_field : (MarketSnapshot F → F) → Option (MarketSnapshot F) → Option F
  latest_field x none = none
  latest_field x (some latest) = some (x latest)

  abbrev pub features_in : Option (MarketState F) → Option (MarketFeatures F)
  features_in none = none
  features_in (some state) = state.features

  abbrev pub latest_in : Option (MarketState F) → Option (MarketSnapshot F)
  latest_in none = none
  latest_in (some state) = state.latest

  abbrev pub level_in : Option (MarketState F) → SchedulerLevel
  level_in none = SchedulerLevel.cold
  level_in (some state) = state.level

  abbrev pub status_in : Option (MarketState F) → FeedStatus
  status_in none = FeedStatus.disconnected
  status_in (some state) = state.feed_status

  abbrev pub signals_in : Option (MarketState F) → List (Signal F)
  signals_in none = []
  signals_in (some state) = state.active_signals

  unfoldable pub map_symbol_state :
      (String → Option (WireIntelligence F)) → String → Option (MarketState F) → WireSymbolState F
  unfolding map_signal
  map_symbol_state view symbol state =
      let features = features_in state in
      let latest = latest_in state in
      record {
        symbol = symbol;
        price = latest_field (λ (s : MarketSnapshot F). s.price) latest;
        scheduler_level = level_value (level_in state);
        feed_status = status_value (status_in state);
        change_1m = feature (λ (m : MarketFeatures F). m.change_1m) features;
        change_5m = feature (λ (m : MarketFeatures F). m.change_5m) features;
        change_15m = feature (λ (m : MarketFeatures F). m.change_15m) features;
        volume_ratio_1m = feature (λ (m : MarketFeatures F). m.volume_ratio_1m) features;
        volume_ratio_5m = feature (λ (m : MarketFeatures F). m.volume_ratio_5m) features;
        ema5 = feature (λ (m : MarketFeatures F). m.ema5) features;
        ema20 = feature (λ (m : MarketFeatures F). m.ema20) features;
        rsi14 = feature (λ (m : MarketFeatures F). m.rsi14) features;
        vwap = feature (λ (m : MarketFeatures F). m.vwap) features;
        active_signals = map (λ (s : Signal F). map_signal (view s.id) s) (signals_in state);
        change_day = feature (λ (m : MarketFeatures F). m.change_day) features;
        above_vwap = feature (λ (m : MarketFeatures F). m.above_vwap) features;
        session_high_obs = feature (λ (m : MarketFeatures F). some m.session_high_obs) features;
        session_low_obs = feature (λ (m : MarketFeatures F). some m.session_low_obs) features;
        session_high_ref = feature (λ (m : MarketFeatures F). m.session_high_ref) features;
        session_low_ref = feature (λ (m : MarketFeatures F). m.session_low_ref) features;
        market_timestamp = latest_field (λ (s : MarketSnapshot F). s.market_timestamp) latest;
      }

  -- `timestamps`
  abbrev pub present : List (WireSymbolState F) → List F
  present [] = []
  present (w ∷ ws) = elim w.market_timestamp [ none ↦ present ws | some t ↦ t ∷ present ws ]

  -- the loops of `map_tick_alerts`: over the candidates of a symbol, and over the symbols
  abbrev pub candidates_of : List (Signal F) → List WireAlertCandidate
  candidates_of = map map_alert_candidate

  abbrev pub last_time : Option F → List (Signal F) → Option F
  last_time t [] = t
  last_time t (s ∷ ss) = last_time (some s.market_timestamp) ss

  unfoldable pub alerts_from :
      Option F → List (SymbolTickResult F) → List WireAlertCandidate × Option F
  unfolding map_alert_candidate
  alerts_from t [] = ([], t)
  alerts_from t (r ∷ rs) =
      let (candidates, last) = alerts_from (last_time t r.alert_candidates) rs in
      (candidates_of r.alert_candidates ++ candidates, last)

  unfoldable pub map_tick_alerts : EngineTickResult F → List WireAlertCandidate × Option F
  unfolding alerts_from
  map_tick_alerts r = alerts_from none r.symbol_results

module _ {F : Type 0} ⦃f : Float F⦄ where
  -- `max(timestamps) if timestamps else None`
  abbrev pub max_or_none : List F → Option F
  max_or_none [] = none
  max_or_none (t ∷ ts) = some (max_from t ts)

  -- `map_engine_state`, at a reading of the clock; `aggregate_status` records what it answers, and is
  -- asked only where a symbol is enabled
  unfoldable pub map_engine_state :
      (String → Option (WireIntelligence F))
      → Bool
      → Bool
      → F
      → MarketEngine F
      → WireMarketState F × MarketEngine F
  unfolding map_symbol_state Watchlist.list Watchlist.enabled_symbols aggregate_status state_of
  map_engine_state view intelligence_enabled replay_complete now e =
      let items = Watchlist.list e.watchlist in
      let symbols =
        map (λ (i : WatchItem). map_symbol_state view i.symbol (state_of i.symbol e.states))
          items in
      let (feed, health) = aggregate_status now (Watchlist.enabled_symbols e.watchlist) e.health in
      (
        record {
          watchlist_count = length items;
          feed_status = status_value feed;
          symbols = symbols;
          intelligence_enabled = intelligence_enabled;
          replay_complete = replay_complete;
          last_market_timestamp = max_or_none (present symbols);
        },
        record e { health = health },
      )
