-- ===== src/Runtime/Process.antt =====
-- src/market_sentinel/runtime/engine.py: `_process_symbol`, `_project_health` and `tick`.
use market_sentinel.Base.{
  ℕ, String, false, not, Option, none, some, List, [], ◌∷◌, if◌then◌else◌, any, filter,
}
use market_sentinel.Base.Eq.{string_eq, ◌==◌}
use market_sentinel.Base.Float.{Float}
use market_sentinel.Domain.{SchedulerLevel, MarketFeatures, MarketState, SignalPipelineResult}
use market_sentinel.Watchlist.{enabled_symbols}
use market_sentinel.Scheduler.{get_level, set_level, due_symbols}
use market_sentinel.RingBuffer.{RingBuffer}
use market_sentinel.Buffers
use market_sentinel.StateStore.{apply_runtime, state_of}
use market_sentinel.Health.{status, feed_latency, last_update_age}
use market_sentinel.Pipeline.{process}
use market_sentinel.Priority.{Formats}
use market_sentinel.Warming.{request}
use market_sentinel.Session.{Platform}
use market_sentinel.Features.Engine.{compute}
use market_sentinel.Runtime.{
  Moment, Clock, Answer, MarketEngine, SymbolTickResult, EngineTickResult,
}
use market_sentinel.Runtime.Fetch.{is_fetched, fetch_due}

-- the enabled symbols that are not due
abbrev pub others : List String → List String → List String
others enabled due = filter (λ k. not (any (λ j. j == k) due)) enabled

module _ {F : Type 0} where
  -- `SignalPipelineResult((), (), (), ())`
  abbrev pub no_result : SignalPipelineResult F
  no_result = record {
    accepted_events = [];
    signal_updates = [];
    traces = [];
    alert_candidates = [];
  }

  -- `current.features if current is not None else None`
  abbrev pub features_of : Option (MarketState F) → Option (MarketFeatures F)
  features_of none = none
  features_of (some current) = current.features

module _ {F : Type 0} ⦃f : Float F⦄ where
  -- `_tick_result`, and the result of a symbol that was processed
  unfoldable pub tick_result :
      String
      → SchedulerLevel
      → Option (MarketFeatures F)
      → SignalPipelineResult F
      → MarketEngine F
      → SymbolTickResult F
  unfolding get_level
  tick_result symbol level_before features result e = record {
    symbol = symbol;
    features = features;
    accepted_events = result.accepted_events;
    signal_updates = result.signal_updates;
    traces = result.traces;
    alert_candidates = result.alert_candidates;
    level_before = level_before;
    level_after = get_level symbol e.scheduler;
  }

module _ {F : Type 0} ⦃f : Float F⦄ (clock : Clock F) where
  -- `self.states.apply_runtime(...)`, with what the arguments are computed from
  unfoldable pub project :
      String
      → Option (Option (MarketFeatures F))
      → Option (List (market_sentinel.Domain.Records.Signal F))
      → MarketEngine F
      → MarketEngine F
  unfolding apply_runtime get_level status feed_latency last_update_age
  project symbol features signals e =
      let (now, health) = status (clock.monotonic Moment.status symbol) symbol e.health in
      record e {
        health = health;
        states =
            (apply_runtime
              (record {
                symbol = symbol;
                level = get_level symbol e.scheduler;
                feed_status = now;
                feed_latency = feed_latency symbol health;
                last_update_age = last_update_age (clock.monotonic Moment.age symbol) symbol health;
                features = features;
                active_signals = signals;
              })
              e.states).1;
      }

  -- `_project_health`
  unfoldable pub project_health : String → MarketEngine F → MarketEngine F
  unfolding project
  project_health symbol e = project symbol none none e

  -- the loop over the others
  unfoldable pub project_all : List String → MarketEngine F → MarketEngine F
  unfolding project_health
  project_all [] e = e
  project_all (symbol ∷ symbols) e = project_all symbols (project_health symbol e)

  -- `if due: await self._fetch_due(due)`, where the provider answers
  abbrev pub fetch_if_due : Answer F → List String → MarketEngine F → Option (MarketEngine F)
  fetch_if_due answer [] e = some e
  fetch_if_due answer (symbol ∷ symbols) e = fetch_due clock answer (symbol ∷ symbols) e

  -- the symbols that are due, at one reading of the clock
  abbrev pub due_now : MarketEngine F → List String
  due_now e = due_symbols (clock.monotonic Moment.due "") (enabled_symbols e.watchlist) e.scheduler

  -- the answer where nothing new was computed: the features are those that the store has
  unfoldable pub unchanged :
      String → SchedulerLevel → MarketEngine F → SymbolTickResult F × MarketEngine F
  unfolding project_health tick_result state_of
  unchanged symbol level_before e =
      let e' = project_health symbol e in
      (tick_result symbol level_before (features_of (state_of symbol e'.states)) no_result e', e')

  -- the stages "warming" and "state"
  unfoldable pub finish :
      String
      → SchedulerLevel
      → Option (MarketFeatures F)
      → SignalPipelineResult F
      → MarketEngine F
      → SymbolTickResult F × MarketEngine F
  unfolding set_level request project tick_result
  finish symbol level_before features result e =
      let asked = request e.warming symbol features result.accepted_events in
      let level =
        set_level (clock.monotonic Moment.levelled symbol) false symbol asked.level e.scheduler in
      let e' =
        project symbol (some features) (some result.signal_updates)
          (record e { scheduler = level.1 }) in
      (tick_result symbol level_before features result e', e')

module _ {F : Type 0} ⦃f : Float F⦄ (uuid : ℕ → String) (fmt : Formats F) (lib : Platform F)
    (clock : Clock F) where
  -- The stage "pipeline", and what follows it. Where `process` raises, what it changed before is not
  -- kept here; it does not raise on a well-formed composer.
  unfoldable pub run_pipeline :
      String
      → SchedulerLevel
      → Option (MarketFeatures F)
      → MarketEngine F
      → SymbolTickResult F × MarketEngine F
  unfolding process finish unchanged state_of
  run_pipeline symbol level_before none e = finish clock symbol level_before none no_result e
  run_pipeline symbol level_before (some features) e =
      elim (process uuid fmt (clock.now symbol) (clock.monotonic Moment.processed symbol)
        (features_of (state_of symbol e.states)) features e.pipeline) [
          | none ↦ unchanged clock symbol level_before e
          | some (result, pipeline) ↦
              finish clock symbol level_before (some features) result
                (record e { pipeline = pipeline })
        ]

  -- from the stage "features" on, with the symbol's buffer
  unfoldable pub run_features :
      String
      → SchedulerLevel
      → Option (RingBuffer F)
      → MarketEngine F
      → SymbolTickResult F × MarketEngine F
  unfolding compute run_pipeline project_health tick_result
  run_features symbol level_before none e =
      let e' = project_health clock symbol e in
      (tick_result symbol level_before none no_result e', e')
  run_features symbol level_before (some b) e = elim (compute lib e.feature_policy b) [
    | none ↦ unchanged clock symbol level_before e
    | some features ↦ run_pipeline symbol level_before features e
  ]

  -- `_process_symbol`
  unfoldable pub process_symbol : String → MarketEngine F → SymbolTickResult F × MarketEngine F
  unfolding unchanged run_features get_level Buffers.buffer
  process_symbol symbol e =
      let level_before = get_level symbol e.scheduler in
      if not (is_fetched symbol e.fetched_symbols)
      then unchanged clock symbol level_before e
      else run_features symbol level_before (Buffers.buffer symbol e.buffers) e

  -- the loop over the due symbols
  unfoldable pub process_all :
      List String → MarketEngine F → List (SymbolTickResult F) × MarketEngine F
  unfolding process_symbol
  process_all [] e = ([], e)
  process_all (symbol ∷ symbols) e =
      let (result, e') = process_symbol symbol e in
      let (results, last) = process_all symbols e' in (result ∷ results, last)

  -- what follows the fetch
  unfoldable pub after_fetch :
      List String → List String → MarketEngine F → EngineTickResult F × MarketEngine F
  unfolding process_all project_all
  after_fetch enabled due e =
      let (results, e') = process_all due e in
      (record { symbol_results = results }, project_all clock (others enabled due) e')

  -- `tick`; `none` is an exception of the fetch
  unfoldable pub tick : Answer F → MarketEngine F → Option (EngineTickResult F × MarketEngine F)
  unfolding fetch_due after_fetch due_symbols enabled_symbols
  tick answer e =
      elim (fetch_if_due clock answer (due_now clock e) (record e { fetched_symbols = [] })) [
        | none ↦ none
        | some e' ↦ some (after_fetch (enabled_symbols e.watchlist) (due_now clock e) e')
      ]

module _ {F : Type 0} where
  -- the loop of `for_symbol`
  abbrev pub first_of : String → List (SymbolTickResult F) → Option (SymbolTickResult F)
  first_of symbol [] = none
  first_of symbol (item ∷ items) =
      let rest = first_of symbol items in if item.symbol == symbol then some item else rest

  unfoldable pub for_symbol : String → EngineTickResult F → Option (SymbolTickResult F)
  for_symbol symbol r = first_of symbol r.symbol_results
