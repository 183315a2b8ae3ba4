-- ===== src/Intelligence/Work.antt =====
-- src/market_sentinel/intelligence/coordinator.py: `_run` and `_execute`, cut at the one place where they
-- wait, for the model. A cancellation while the coordinator is closed ends the worker and is left out;
-- so are telemetry rows and sums of latencies.
use market_sentinel.Base.{
  ℕ, ◌+◌, ◌-◌, String, Bool, true, false, not, none, some, [], ◌∷◌, eqb, if◌then◌else◌,
}
use market_sentinel.Base.Eq.{string_eq}
use market_sentinel.Base.Dict.{set, pop}
use market_sentinel.Intelligence.{FallbackReason}
use market_sentinel.Intelligence.Coordinator.{
  IntelligenceCoordinator, IntelligenceWork, IntelligenceResult, IntelligenceStatus,
  IntelligenceDiagnostics, CallTask, count_of, work_is_live, store, release_pending,
}

-- how the call of the model ends: the fields of the completion, what `_reason_for` makes of an
-- exception, or a cancellation
pub data Outcome (F : Type 0) : Type 0 where
  completed : Bool → String → F → String → Outcome F
  failed : FallbackReason → Outcome F
  call_cancelled : Outcome F

abbrev pub count_failure : FallbackReason → IntelligenceDiagnostics → IntelligenceDiagnostics
count_failure FallbackReason.timeout d = record d {
  fallback_count = d.fallback_count + 1;
  timeout_count = d.timeout_count + 1;
}
count_failure FallbackReason.malformed d = record d {
  fallback_count = d.fallback_count + 1;
  parse_failure_count = d.parse_failure_count + 1;
}
count_failure FallbackReason.rate_limited d = record d {
  fallback_count = d.fallback_count + 1;
  rate_limit_count = d.rate_limit_count + 1;
}
count_failure _ d = record d { fallback_count = d.fallback_count + 1 }

module _ {F : Type 0} where
  abbrev pub discard_stale : IntelligenceCoordinator F → IntelligenceCoordinator F
  discard_stale c = record c {
    diagnostics = record c.diagnostics { stale_discard = c.diagnostics.stale_discard + 1 };
  }

  abbrev pub running_result : String → ℕ → IntelligenceResult F
  running_result id calls = record {
    signal_id = id;
    status = IntelligenceStatus.running;
    requested = true;
    annotation = none;
    fallback_reason = FallbackReason.no_reason;
    model_calls = calls;
    router_latency_s = none;
    model_latency_s = none;
    parse_latency_s = none;
  }

  -- up to the call: whether it is waited for, and the coordinator. The second test of the source comes
  -- before any wait, so it answers as the first.
  unfoldable pub begin_work :
      IntelligenceWork F → IntelligenceCoordinator F → Bool × IntelligenceCoordinator F
  unfolding release_pending store work_is_live
  begin_work work c =
      let id = work.signal_id in
      let called = record c {
        in_flight_tasks = set id CallTask.unfinished c.in_flight_tasks;
        in_flight = c.in_flight + 1;
        diagnostics = record c.diagnostics { model_calls = c.diagnostics.model_calls + 1 };
      } in
      if not (work_is_live work c)
      then (false, release_pending id (discard_stale c))
      else (true, store work (running_result id (count_of id c.calls)) called)

  -- what the outcome does; `elapsed` and `now` are the readings of the clocks
  unfoldable pub settle :
      F → F → IntelligenceWork F → Outcome F → IntelligenceCoordinator F → IntelligenceCoordinator F
  unfolding store work_is_live
  settle elapsed now work (completed worth_highlight reason confidence summary) c =
      if not (work_is_live work c)
      then discard_stale c
      else store work
          (record {
            signal_id = work.signal_id;
            status = IntelligenceStatus.enriched;
            requested = true;
            annotation = some (record {
              signal_id = work.signal_id;
              worth_highlight = worth_highlight;
              reason = reason;
              confidence = confidence;
              summary = summary;
              created_timestamp = now;
            });
            fallback_reason = FallbackReason.no_reason;
            model_calls = count_of work.signal_id c.calls;
            router_latency_s = none;
            model_latency_s = some elapsed;
            parse_latency_s = none;
          })
          c
  settle elapsed now work (failed reason) c =
      let counted = record c { diagnostics = count_failure reason c.diagnostics } in
      if not (work_is_live work c)
      then discard_stale counted
      else store work
          (record {
            signal_id = work.signal_id;
            status = IntelligenceStatus.fallback;
            requested = true;
            annotation = none;
            fallback_reason = reason;
            model_calls = count_of work.signal_id c.calls;
            router_latency_s = none;
            model_latency_s = some elapsed;
            parse_latency_s = none;
          })
          counted
  settle elapsed now work call_cancelled c = discard_stale c

  abbrev pub is_drained : IntelligenceCoordinator F → Bool
  is_drained c = elim c.queue [ none ↦ false | some [] ↦ eqb c.in_flight 0 | some (w ∷ ws) ↦ false ]

  -- the `finally` of `_execute`
  abbrev pub end_call : String → IntelligenceCoordinator F → IntelligenceCoordinator F
  end_call id c =
      let ended = record c {
        in_flight_tasks = pop id c.in_flight_tasks;
        in_flight = c.in_flight - 1;
      } in
      if is_drained ended then record ended { idle = true } else ended

  unfoldable pub finish_work :
      F → F → IntelligenceWork F → Outcome F → IntelligenceCoordinator F → IntelligenceCoordinator F
  unfolding settle release_pending
  finish_work elapsed now work outcome c =
      release_pending work.signal_id (end_call work.signal_id (settle elapsed now work outcome c))
