-- ===== src/Intelligence/Observe.antt =====
-- src/market_sentinel/intelligence/coordinator.py: `observe_tick`. Telemetry rows and the readings of
-- latencies are left out.
use market_sentinel.Base.{
  ◌+◌, String, Bool, false, not, Option, none, some, List, [], ◌∷◌, ◌++◌, map, length, filter,
  if◌then◌else◌, or_else,
}
use market_sentinel.Base.Eq.{string_eq, ◌==◌}
use market_sentinel.Base.Dict.{get}
use market_sentinel.Base.Float.{Float, le}
use market_sentinel.Domain.{FeedStatus, Signal, SignalTrace}
use market_sentinel.Runtime.{SymbolTickResult, EngineTickResult}
use market_sentinel.Intelligence.{IntelligenceInput, need_intelligence, compress_intelligence_input}
use market_sentinel.Intelligence.Coordinator.{
  IntelligenceCoordinator, contains_name, count_of, enqueue, retire_inactive,
}

module _ {F : Type 0} where
  -- the facts about a signal with its trace, as the coordinator stands
  unfoldable pub payload_of :
      FeedStatus
      → List String
      → Signal F
      → SignalTrace F
      → IntelligenceCoordinator F
      → IntelligenceInput F
  unfolding compress_intelligence_input
  payload_of feed alerts signal trace c =
      compress_intelligence_input signal trace feed (contains_name signal.id alerts)
        (count_of signal.id c.calls) (get signal.id c.last_priority)
        (not (contains_name signal.id c.active_ids))

  unfoldable pub route :
      FeedStatus
      → List String
      → Signal F
      → SignalTrace F
      → IntelligenceCoordinator F
      → IntelligenceCoordinator F
  unfolding payload_of need_intelligence enqueue
  route feed alerts signal trace c =
      let payload = payload_of feed alerts signal trace c in
      let d = c.diagnostics in
      if (need_intelligence payload (some c.policy) (some c.budget)).requested
      then enqueue payload signal
          (record c { diagnostics = record d { router_decisions = d.router_decisions + 1 } })
      else record c {
        diagnostics = record d {
          router_decisions = d.router_decisions + 1;
          requests_suppressed = d.requests_suppressed + 1;
        };
      }

  -- the last trace of a signal, as in the dictionary of the traces
  abbrev pub trace_in : String → List (SignalTrace F) → Option (SignalTrace F)
  trace_in id [] = none
  trace_in id (t ∷ ts) = elim (trace_in id ts) [
    | some u ↦ some u
    | none ↦ if t.signal_id == id then some t else none
  ]

  unfoldable pub route_signal :
      FeedStatus
      → SymbolTickResult F
      → Signal F
      → IntelligenceCoordinator F
      → IntelligenceCoordinator F
  unfolding route
  route_signal feed row signal c = elim (trace_in signal.id row.traces) [
    | none ↦ c
    | some trace ↦ route feed (map (λ s. s.id) row.alert_candidates) signal trace c
  ]

  abbrev pub route_signals :
      FeedStatus
      → SymbolTickResult F
      → List (Signal F)
      → IntelligenceCoordinator F
      → IntelligenceCoordinator F
  route_signals feed row [] c = c
  route_signals feed row (s ∷ ss) c = route_signals feed row ss (route_signal feed row s c)

  abbrev pub route_rows :
      (String → FeedStatus)
      → List (SymbolTickResult F)
      → IntelligenceCoordinator F
      → IntelligenceCoordinator F
  route_rows feed_status_for [] c = c
  route_rows feed_status_for (row ∷ rows) c =
      route_rows feed_status_for rows
        (route_signals (feed_status_for row.symbol) row row.signal_updates c)

  abbrev pub updated_signals : List (SymbolTickResult F) → List (Signal F)
  updated_signals [] = []
  updated_signals (row ∷ rows) = row.signal_updates ++ updated_signals rows

  abbrev pub measure_queue : IntelligenceCoordinator F → IntelligenceCoordinator F
  measure_queue c = elim c.queue [
    | none ↦ c
    | some works ↦ record c { diagnostics = record c.diagnostics { queue_depth = length works } }
  ]

module _ {F : Type 0} ⦃f : Float F⦄ where
  -- the signals that have expired leave the active ones
  abbrev pub has_expired : F → Signal F → Bool
  has_expired now s = elim s.expires_at [ none ↦ false | some at ↦ le at now ]

  abbrev pub discard_expired : F → List (Signal F) → List String → List String
  discard_expired now [] ids = ids
  discard_expired now (s ∷ ss) ids =
      if has_expired now s
      then discard_expired now ss (filter (λ i. not (i == s.id)) ids)
      else discard_expired now ss ids

  unfoldable pub observe_tick :
      F
      → EngineTickResult F
      → (String → FeedStatus)
      → Option (List String)
      → IntelligenceCoordinator F
      → IntelligenceCoordinator F
  unfolding retire_inactive route_signal
  observe_tick now result feed_status_for active_ids c =
      let signals = updated_signals result.symbol_results in
      let current = or_else active_ids (map (λ s. s.id) signals) in
      measure_queue (
        route_rows feed_status_for result.symbol_results
          (retire_inactive (discard_expired now signals current) c))
