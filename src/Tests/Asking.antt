-- ===== src/Tests/Asking.antt =====
-- Tests of the router and of the coordinator of the requests to the language model.
use market_sentinel.Base.{String, ◌≡◌, ◌↔◌, refl, true, false, none, some, [], ◌∷◌, arith}
use market_sentinel.Base.Eq.{string_eq}
use market_sentinel.Base.Dict.{get, set, pop}
use market_sentinel.Base.Float.{Micro, micro_float, num}
use market_sentinel.Domain.{
  EventDirection, FeedStatus, SignalPriority, Family, Signal, SchedulerLevel,
}
use market_sentinel.Priority.{sorted_names, insert_name}
use market_sentinel.Runtime.{EngineTickResult}
use market_sentinel.Intelligence.{
  IntelligenceInput, EpisodeCallBudget, FallbackReason, default_policy, default_budget,
  need_intelligence, decide, is_candidate, lacks_features, budget_allows_call,
  compress_intelligence_input,
}
use market_sentinel.Intelligence.Router.{Wanted, need_intelligence_iff}
use market_sentinel.Intelligence.Coordinator.{
  IntelligenceCoordinator, IntelligenceWork, store, work_is_live, release_pending, release_pending,
  retire_inactive, invalidate, maybe_forget, enqueue,
}
use market_sentinel.Intelligence.Observe.{observe_tick, route_signal, route, payload_of}
use market_sentinel.Intelligence.Budget.{InBudget}
use market_sentinel.Intelligence.Runs.{created, observed, finished, Run-InBudget}
use market_sentinel.Intelligence.Work.{failed, settle, finish_work}
use market_sentinel.Tests.Composing.{signal, trace}

-- an important move of an episode that was asked about once, at a lower priority
abbrev asked_once : IntelligenceInput Micro
asked_once = record {
  signal_id = "s1";
  symbol = "AAA";
  family = Family.move;
  direction = EventDirection.up;
  priority = SignalPriority.important;
  event_types = "rapid_move" ∷ [];
  change_1m = some (num 2);
  change_5m = none;
  volume_ratio_5m = none;
  above_vwap = none;
  rsi14 = none;
  day_range_position = none;
  feed_status = FeedStatus.live;
  alert_edge = true;
  episode_call_count = 1;
  last_requested_priority = some SignalPriority.notice;
  expired = false;
}

abbrev with_recall : EpisodeCallBudget
with_recall = record { max_calls = 1; allow_escalation_recall = true }

-- the recall is granted, the ordinary budget is spent
recall_requested : (need_intelligence asked_once none (some with_recall)).requested ≡ true
unfolding need_intelligence decide is_candidate lacks_features budget_allows_call
recall_requested = refl

recall_refused : (need_intelligence asked_once none none).reason ≡ FallbackReason.episode_budget
unfolding need_intelligence decide is_candidate lacks_features budget_allows_call
recall_refused = refl

need_intelligence_iff_example :
    ((need_intelligence asked_once none (some with_recall)).requested ≡ true)
    ↔ Wanted default_policy with_recall asked_once
need_intelligence_iff_example = need_intelligence_iff asked_once none (some with_recall)

abbrev idle_coordinator : IntelligenceCoordinator Micro
idle_coordinator = record {
  budget = default_budget;
  policy = default_policy;
  queue_size = 8;
  queue = some [];
  calls = [];
  last_priority = [];
  generation = [];
  pending = [];
  active_ids = [];
  in_flight_tasks = [];
  in_flight = 0;
  idle = true;
  registry = [];
  diagnostics = record {
    router_decisions = 0;
    requests_submitted = 0;
    requests_suppressed = 0;
    model_calls = 0;
    fallback_count = 0;
    timeout_count = 0;
    parse_failure_count = 0;
    rate_limit_count = 0;
    dropped_backpressure = 0;
    stale_discard = 0;
    queue_depth = 0;
  };
}

abbrev important_signal : Signal Micro
important_signal = record signal { priority = SignalPriority.important }

-- one symbol with one signal, which may alert
abbrev alerting : EngineTickResult Micro
alerting = record {
  symbol_results =
      (record {
        symbol = "AAA";
        features = none;
        accepted_events = [];
        signal_updates = important_signal ∷ [];
        traces = trace ∷ [];
        alert_candidates = important_signal ∷ [];
        level_before = SchedulerLevel.cold;
        level_after = SchedulerLevel.hot;
      })
      ∷ [];
}

abbrev all_live : String → FeedStatus
all_live symbol = FeedStatus.live

abbrev after_tick : IntelligenceCoordinator Micro
after_tick = observe_tick (num 200) alerting all_live none idle_coordinator

abbrev after_ticks : IntelligenceCoordinator Micro
after_ticks = observe_tick (num 201) alerting all_live none after_tick

-- the first tick asks once, and the second does not ask again
two_ticks :
    (after_tick.calls ≡ ("s1", 1) ∷ [])
    × (after_ticks.calls ≡ ("s1", 1) ∷ [])
    × (after_ticks.diagnostics.requests_suppressed ≡ 1)
unfolding observe_tick retire_inactive invalidate maybe_forget route_signal route enqueue payload_of
    need_intelligence decide is_candidate lacks_features budget_allows_call
    compress_intelligence_input sorted_names insert_name get set pop
two_ticks = (refl, refl, refl)

idle-InBudget : InBudget default_budget idle_coordinator
unfolding get
idle-InBudget = record { same = refl; within = λ id. omega arith }

abbrev asked : IntelligenceWork Micro
asked = record {
  signal_id = "s1";
  payload = asked_once;
  generation = 1;
  market_timestamp = num 100;
  symbol = "AAA";
  family = Family.move;
  direction = "up";
  priority = "important";
}

abbrev timed_out : IntelligenceCoordinator Micro
timed_out = finish_work (num 3) (num 204) asked (failed FallbackReason.timeout) after_ticks

-- the work of the first tick is live when its call times out, and the count of calls stays
timeout_falls_back :
    (timed_out.calls ≡ ("s1", 1) ∷ [])
    × (timed_out.pending ≡ [])
    × (timed_out.diagnostics.timeout_count ≡ 1)
    × (timed_out.diagnostics.stale_discard ≡ 0)
unfolding finish_work settle release_pending store work_is_live observe_tick retire_inactive
    invalidate maybe_forget route_signal route enqueue payload_of need_intelligence decide
    is_candidate lacks_features budget_allows_call compress_intelligence_input sorted_names
    insert_name get set pop
timeout_falls_back = (refl, refl, refl, refl)

Run-InBudget_example : InBudget default_budget timed_out
Run-InBudget_example = Run-InBudget default_budget idle_coordinator timed_out idle-InBudget (
    finished (num 3) (num 204) asked (failed FallbackReason.timeout) (
      observed (num 201) alerting all_live none
        (observed (num 200) alerting all_live none created)))
