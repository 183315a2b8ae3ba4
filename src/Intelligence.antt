-- ===== src/Intelligence.antt =====
-- src/market_sentinel/intelligence/{contract,compress,router}.py: the facts that a request to the
-- language model is decided on, the budget of calls of an episode, and the router's decision.
pub mod Router
pub mod Coordinator
pub mod Observe
pub mod Work
pub mod Budget
pub mod Runs
use market_sentinel.Base.{
  ℕ, ◌+◌, String, Bool, true, false, not, ◌&&◌, ◌||◌, Option, none, some, List, ltb, leb, length,
  any, if◌then◌else◌, is_some, or_else,
}
use market_sentinel.Base.Eq.{string_eq, ◌==◌}
use market_sentinel.Domain.{
  EventType, type_value, EventDirection, FeedStatus, status_eq, SignalPriority, priority_rank,
  Family, Signal, SignalTrace,
}
use market_sentinel.Priority.{sorted_names}

pub data FallbackReason : Type 0 where
  no_reason not_candidate stale_feed insufficient_features suppressed_edge : FallbackReason
  episode_budget expired_episode timeout transport malformed : FallbackReason
  rate_limited unavailable cancelled stale_work by_policy : FallbackReason

pub record IntelligenceInput (F : Type 0) : Type 0 where
  pub signal_id : String
  pub symbol : String
  pub family : Family
  pub direction : EventDirection
  pub priority : SignalPriority
  pub event_types : List String
  pub change_1m : Option F
  pub change_5m : Option F
  pub volume_ratio_5m : Option F
  pub above_vwap : Option Bool
  pub rsi14 : Option F
  pub day_range_position : Option F
  pub feed_status : FeedStatus
  pub alert_edge : Bool
  pub episode_call_count : ℕ
  pub last_requested_priority : Option SignalPriority
  pub expired : Bool

pub record EpisodeCallBudget : Type 0 where
  pub max_calls : ℕ
  pub allow_escalation_recall : Bool

pub record RouterPolicy : Type 0 where
  pub min_priority : SignalPriority
  pub require_alert_edge : Bool
  pub min_convergence_types : ℕ

pub record RouterDecision : Type 0 where
  pub requested : Bool
  pub reason : FallbackReason
  pub candidate : Bool

-- the defaults of the two dataclasses
abbrev pub default_budget : EpisodeCallBudget
default_budget = record { max_calls = 1; allow_escalation_recall = false }

abbrev pub default_policy : RouterPolicy
default_policy = record {
  min_priority = SignalPriority.important;
  require_alert_edge = true;
  min_convergence_types = 3;
}

-- the tests after the last priority is known
abbrev pub escalates : EpisodeCallBudget → ℕ → SignalPriority → SignalPriority → Bool
escalates budget calls_made current last_priority =
    if leb (budget.max_calls + 1) calls_made
    then false
    else ltb (priority_rank last_priority) (priority_rank current)

abbrev pub recall_allowed : EpisodeCallBudget → ℕ → SignalPriority → Option SignalPriority → Bool
recall_allowed budget calls_made current none = false
recall_allowed budget calls_made current (some last_priority) =
    escalates budget calls_made current last_priority

unfoldable pub budget_allows_call :
    EpisodeCallBudget → ℕ → SignalPriority → Option SignalPriority → Bool
budget_allows_call budget calls_made current last_priority =
    if ltb calls_made budget.max_calls
    then true
    else if not budget.allow_escalation_recall
    then false
    else recall_allowed budget calls_made current last_priority

-- membership in `_PRICE`, `_VOLUME`, `_BREAKOUT` and `_UNHEALTHY`
abbrev pub is_price_type : String → Bool
is_price_type t =
    (t == type_value EventType.rapid_move) || (t == type_value EventType.price_volume_expansion)

abbrev pub is_volume_type : String → Bool
is_volume_type t =
    (t == type_value EventType.volume_spike) || (t == type_value EventType.price_volume_expansion)

abbrev pub is_breakout_type : String → Bool
is_breakout_type t =
    (t == type_value EventType.day_high_breakout) || (t == type_value EventType.day_low_breakdown)

abbrev pub is_unhealthy : FeedStatus → Bool
is_unhealthy status = (status == FeedStatus.stale) || (status == FeedStatus.disconnected)

abbrev pub decision : Bool → FallbackReason → Bool → RouterDecision
decision requested reason candidate = record {
  requested = requested;
  reason = reason;
  candidate = candidate;
}

module _ {F : Type 0} where
  -- `_is_candidate`: the length of the set of types is that of its sorted list
  unfoldable pub is_candidate : IntelligenceInput F → RouterPolicy → Bool
  is_candidate row policy =
      let types = row.event_types in
      if leb (priority_rank policy.min_priority) (priority_rank row.priority)
      then true
      else if any is_price_type types && (any is_volume_type types && any is_breakout_type types)
      then true
      else leb policy.min_convergence_types (length (sorted_names types))
        && (any is_price_type types && any is_volume_type types)

  unfoldable pub lacks_features : IntelligenceInput F → Bool
  lacks_features row =
      not (is_some row.change_1m)
      && (not (is_some row.change_5m) && not (is_some row.volume_ratio_5m))

  -- the decision under a policy and a budget that are given
  unfoldable pub decide : IntelligenceInput F → RouterPolicy → EpisodeCallBudget → RouterDecision
  unfolding is_candidate lacks_features budget_allows_call
  decide row policy budget =
      let candidate = is_candidate row policy in
      if row.expired
      then decision false FallbackReason.expired_episode candidate
      else if policy.require_alert_edge && not row.alert_edge
      then decision false FallbackReason.suppressed_edge candidate
      else if is_unhealthy row.feed_status
      then decision false FallbackReason.stale_feed candidate
      else if lacks_features row
      then decision false FallbackReason.insufficient_features candidate
      else if not candidate
      then decision false FallbackReason.not_candidate false
      else if not (
          budget_allows_call budget row.episode_call_count row.priority row.last_requested_priority)
      then decision false FallbackReason.episode_budget true
      else decision true FallbackReason.no_reason true

  unfoldable pub need_intelligence :
      IntelligenceInput F → Option RouterPolicy → Option EpisodeCallBudget → RouterDecision
  unfolding decide
  need_intelligence row policy budget =
      decide row (or_else policy default_policy) (or_else budget default_budget)

  unfoldable pub compress_intelligence_input :
      Signal F
      → SignalTrace F
      → FeedStatus
      → Bool
      → ℕ
      → Option SignalPriority
      → Bool
      → IntelligenceInput F
  unfolding sorted_names
  compress_intelligence_input signal trace feed_status alert_edge episode_call_count
        last_requested_priority expired =
      record {
        signal_id = signal.id;
        symbol = signal.symbol;
        family = signal.family;
        direction = signal.direction;
        priority = signal.priority;
        event_types = sorted_names trace.rule_names;
        change_1m = trace.features.change_1m;
        change_5m = trace.features.change_5m;
        volume_ratio_5m = trace.features.volume_ratio_5m;
        above_vwap = trace.features.above_vwap;
        rsi14 = trace.features.rsi14;
        day_range_position = trace.features.day_range_position;
        feed_status = feed_status;
        alert_edge = alert_edge;
        episode_call_count = episode_call_count;
        last_requested_priority = last_requested_priority;
        expired = expired;
      }
