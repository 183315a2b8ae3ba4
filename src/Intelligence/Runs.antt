-- ===== src/Intelligence/Runs.antt =====
-- src/market_sentinel/intelligence/coordinator.py: the runs of ticks and calls in whatever order, and the
-- counts of calls in them.
use market_sentinel.Base.{
  map, ◌+◌, ◌≤◌, String, true, ◌≡◌, Option, none, some, List, [], ◌∷◌, length, or_else, Bool-cases,
  inl, inr, subst,
}
use market_sentinel.Base.Eq.{string_eq}
use market_sentinel.Base.Float.{Float}
use market_sentinel.Domain.{FeedStatus, Signal, SignalTrace}
use market_sentinel.Runtime.{SymbolTickResult, EngineTickResult}
use market_sentinel.Intelligence.{EpisodeCallBudget, need_intelligence, compress_intelligence_input}
use market_sentinel.Intelligence.Router.{need_intelligence_iff}
use market_sentinel.Intelligence.Work.{Outcome, begin_work, finish_work}
use market_sentinel.Intelligence.Coordinator.{
  IntelligenceCoordinator, IntelligenceWork, count_of, retire_inactive,
}
use market_sentinel.Intelligence.Observe.{
  updated_signals, discard_expired, payload_of, route, trace_in, route_signal, route_signals,
  route_rows, measure_queue, observe_tick,
}
use market_sentinel.Intelligence.Budget.{
  allowance, Affordable-allowance, InBudget, release_pending-InBudget, begin_work-InBudget,
  settle-InBudget, end_call-InBudget, retire-InBudget, enqueue-InBudget,
}

module _ {F : Type 0} where
  -- a request that the router grants has room in the budget
  granted_room :
      (b : EpisodeCallBudget) (feed : FeedStatus) (alerts : List String) (s : Signal F)
      (t : SignalTrace F) (c : IntelligenceCoordinator F)
      → c.budget ≡ b
      → (need_intelligence (payload_of feed alerts s t c) (some c.policy) (some c.budget)).requested
        ≡ true
      → count_of s.id c.calls + 1 ≤ allowance b
  unfolding payload_of compress_intelligence_input
  granted_room b feed alerts s t c e h =
      subst (λ x. count_of s.id c.calls + 1 ≤ allowance x) e
        (Affordable-allowance c.budget _ _ _
          ((need_intelligence_iff (payload_of feed alerts s t c) (some c.policy) (some c.budget)).0
            h).affordable)

  route-InBudget :
      (b : EpisodeCallBudget) (feed : FeedStatus) (alerts : List String) (s : Signal F)
      (t : SignalTrace F) (c : IntelligenceCoordinator F)
      → InBudget b c
      → InBudget b (route feed alerts s t c)
  unfolding route payload_of compress_intelligence_input
  route-InBudget b feed alerts s t c h =
      elim (Bool-cases
        (need_intelligence (payload_of feed alerts s t c) (some c.policy)
          (some c.budget)).requested) [
            | inl e ↦ rw e (
                enqueue-InBudget b (payload_of feed alerts s t c) s
                  (record c {
                    diagnostics = record c.diagnostics {
                      router_decisions = c.diagnostics.router_decisions + 1;
                    };
                  })
                  (granted_room b feed alerts s t c h.same e)
                  (record { same = h.same; within = h.within }))
            | inr e ↦ rw e (record { same = h.same; within = h.within })
          ]

  route_signal-InBudget :
      (b : EpisodeCallBudget) (feed : FeedStatus) (row : SymbolTickResult F) (s : Signal F)
      (c : IntelligenceCoordinator F)
      → InBudget b c
      → InBudget b (route_signal feed row s c)
  unfolding route_signal
  route_signal-InBudget b feed row s c h = by_trace (trace_in s.id row.traces)
    where
      by_trace :
          (o : Option (SignalTrace F))
          → InBudget b (elim o [
            | none ↦ c
            | some trace ↦ route feed (map (λ s. s.id) row.alert_candidates) s trace c
          ])
      by_trace none = h
      by_trace (some t) = route-InBudget b feed (map (λ s. s.id) row.alert_candidates) s t c h

  route_signals-InBudget :
      (b : EpisodeCallBudget) (feed : FeedStatus) (row : SymbolTickResult F) (ss : List (Signal F))
      (c : IntelligenceCoordinator F)
      → InBudget b c
      → InBudget b (route_signals feed row ss c)
  route_signals-InBudget b feed row [] c h = h
  route_signals-InBudget b feed row (s ∷ ss) c h =
      route_signals-InBudget b feed row ss (route_signal feed row s c)
        (route_signal-InBudget b feed row s c h)

  route_rows-InBudget :
      (b : EpisodeCallBudget) (feeds : String → FeedStatus) (rows : List (SymbolTickResult F))
      (c : IntelligenceCoordinator F)
      → InBudget b c
      → InBudget b (route_rows feeds rows c)
  route_rows-InBudget b feeds [] c h = h
  route_rows-InBudget b feeds (row ∷ rows) c h =
      route_rows-InBudget b feeds rows (route_signals (feeds row.symbol) row row.signal_updates c)
        (route_signals-InBudget b (feeds row.symbol) row row.signal_updates c h)

  measure-InBudget :
      (b : EpisodeCallBudget) (c : IntelligenceCoordinator F)
      → InBudget b c
      → InBudget b (measure_queue c)
  measure-InBudget b c h = by_queue c.queue
    where
      by_queue :
          (o : Option (List (IntelligenceWork F)))
          → InBudget b (elim o [
            | none ↦ c
            | some works ↦ record c {
              diagnostics = record c.diagnostics { queue_depth = length works };
            }
          ])
      by_queue none = h
      by_queue (some works) = record { same = h.same; within = h.within }

module _ {F : Type 0} ⦃f : Float F⦄ where
  observe_tick-InBudget :
      (b : EpisodeCallBudget) (now : F) (result : EngineTickResult F) (feeds : String → FeedStatus)
      (ids : Option (List String)) (c : IntelligenceCoordinator F)
      → InBudget b c
      → InBudget b (observe_tick now result feeds ids c)
  unfolding observe_tick
  observe_tick-InBudget b now result feeds ids c h =
      let signals = updated_signals result.symbol_results in
      let current = discard_expired now signals (or_else ids (map (λ s. s.id) signals)) in
      let retired = retire_inactive current c in
      measure-InBudget b (route_rows feeds result.symbol_results retired)
        (route_rows-InBudget b feeds result.symbol_results retired (retire-InBudget b current c h))

  -- what the engine's ticks and the workers do between two awaits, one after the other
  pub data Run (first : IntelligenceCoordinator F) : IntelligenceCoordinator F → Type 0 where
    created : Run first first
    observed :
        {c : IntelligenceCoordinator F} (now : F) (result : EngineTickResult F)
        (feeds : String → FeedStatus) (ids : Option (List String))
        → Run first c
        → Run first (observe_tick now result feeds ids c)
    taken :
        {c : IntelligenceCoordinator F} (work : IntelligenceWork F)
        (works : List (IntelligenceWork F))
        → c.queue ≡ some (work ∷ works)
        → Run first c
        → Run first (record c { queue = some works })
    begun :
        {c : IntelligenceCoordinator F} (work : IntelligenceWork F)
        → Run first c
        → Run first (begin_work work c).1
    finished :
        {c : IntelligenceCoordinator F} (elapsed now : F) (work : IntelligenceWork F)
        (outcome : Outcome F)
        → Run first c
        → Run first (finish_work elapsed now work outcome c)

  -- From a coordinator whose counts are within the allowance of its budget, the ticks of the engine, the
  -- takings from the queue, and the beginnings and ends of calls with any outcome, in whatever order,
  -- leave it so: no episode that is tracked counts more model calls than the budget, with one more where the
  -- budget allows a recall, and the budget is the same.
  pub Run-InBudget :
      (b : EpisodeCallBudget) (first last : IntelligenceCoordinator F)
      → InBudget b first
      → Run first last
      → InBudget b last
  unfolding finish_work
  Run-InBudget b first _ h created = h
  Run-InBudget b first _ h (observed {c} now result feeds ids r) =
      observe_tick-InBudget b now result feeds ids c (Run-InBudget b first c h r)
  Run-InBudget b first _ h (taken {c} work works e r) =
      let g = Run-InBudget b first c h r in record { same = g.same; within = g.within }
  Run-InBudget b first _ h (begun {c} work r) =
      begin_work-InBudget b work c (Run-InBudget b first c h r)
  Run-InBudget b first _ h (finished {c} elapsed now work outcome r) =
      release_pending-InBudget b work.signal_id _ (
        end_call-InBudget b work.signal_id _
          (settle-InBudget b elapsed now work outcome c (Run-InBudget b first c h r)))
