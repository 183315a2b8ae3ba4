-- ===== src/Tests/Feeds.antt =====
-- Tests of the feed health, the detector, the warming policy and the indicators.
use market_sentinel.Base.{
  List, ℕ, ◌+◌, ◌≤◌, String, ◌≡◌, refl, true, ◌⊎◌, none, some, [], ◌∷◌, ◌++◌, arith, All, any,
  length,
}
use market_sentinel.Base.Eq.{string_eq, ◌==◌}
use market_sentinel.Base.Dict.{get}
use market_sentinel.Base.Float.{
  Micro, Micro-IsOrdered, Micro-IsMonotone, micro_float, num, dec, sub,
}
use market_sentinel.Domain.{FeedStatus, status_eq, EventType, EventDirection, MarketEvent}
use market_sentinel.Health
use market_sentinel.Health.{FeedHealthTracker, worst, quote, failure, peek_status, observe}
use market_sentinel.Health.Status.{ask_all, peek_status_mono, status-peek_status, observe_recovers}
use market_sentinel.Health.Worst.{fail_all, fail_all_disconnects, aggregate_status-IsWorst}
use market_sentinel.Events.Detector.{evaluate}
use market_sentinel.Events.Shape.{IsFrom, TypesFrom, IdsFrom, evaluate_lem}
use market_sentinel.Indicators.{ema, rsi_wilder, averages, changes, gain, loss, wilder, strength}
use market_sentinel.Indicators.Streaming.{rsi_wilder-append}
use market_sentinel.Scheduler.{rank}
use market_sentinel.Warming.{default_config, request}
use market_sentinel.Warming.Request.{request_mono}
use market_sentinel.Tests.{quote_at, event_at, moving}

abbrev tracker : FeedHealthTracker Micro
tracker = record {
  policy = Health.default_policy;
  symbols =
      (
        "AAA",
        record {
          last_success_mono = some (num 10);
          consecutive_failures = 1;
          market_timestamp = some (num 5);
          received_timestamp = some (num 6);
          last_status = none;
        },
      )
      ∷ [];
}

stale_after_40_s : peek_status (num 50) "AAA" tracker ≡ FeedStatus.stale
unfolding peek_status Health.compute Health.compute_seen Health.latency get
stale_after_40_s = refl

peek_status_mono_example :
    worst (peek_status (num 20) "AAA" tracker)
    ≤ worst (peek_status (num 50) "AAA" (ask_all ((num 30, "AAA") ∷ []) tracker))
peek_status_mono_example =
    peek_status_mono Micro-IsOrdered Micro-IsMonotone (num 20) (num 50) "AAA" ((num 30, "AAA") ∷ [])
      tracker refl

status-peek_status_example :
    ((Health.status (num 20) "AAA" tracker).0 ≡ peek_status (num 20) "AAA" tracker)
    × (peek_status (num 50) "AAA" (Health.status (num 20) "AAA" tracker).1
        ≡ peek_status (num 50) "AAA" tracker)
status-peek_status_example = status-peek_status (num 20) (num 50) "AAA" "AAA" tracker

observe_recovers_example :
    (peek_status (num 90) "AAA" (observe (num 90) "AAA" (quote (quote_at "AAA" 89 7)) tracker).1
      ≡ FeedStatus.live)
    ⊎ (peek_status (num 90) "AAA" (observe (num 90) "AAA" (quote (quote_at "AAA" 89 7)) tracker).1
        ≡ FeedStatus.delayed)
observe_recovers_example =
    observe_recovers Micro-IsOrdered Micro-IsMonotone (num 90) "AAA" (quote_at "AAA" 89 7) tracker
      (omega arith) refl refl

fail_all_disconnects_example :
    peek_status (num 13) "AAA" (fail_all "AAA" (num 11 ∷ num 12 ∷ []) tracker)
    ≡ FeedStatus.disconnected
unfolding Health.consecutive_failures get
fail_all_disconnects_example =
    fail_all_disconnects "AAA" (num 11 ∷ num 12 ∷ []) (num 13) tracker (ground arith)

aggregate_status-IsWorst_example :
    let a = (Health.aggregate_status (num 20) ("AAA" ∷ "BBB" ∷ []) tracker).0 in
    All (λ k. worst (peek_status (num 20) k tracker) ≤ worst a) ("AAA" ∷ "BBB" ∷ [])
    × (any (λ k. peek_status (num 20) k tracker == a) ("AAA" ∷ "BBB" ∷ []) ≡ true)
aggregate_status-IsWorst_example = aggregate_status-IsWorst (num 20) "AAA" ("BBB" ∷ []) tracker

-- identifiers, as `uuid4` might make them
abbrev uuid : ℕ → String
uuid n = "id"

evaluate_lem_example :
    let (events, last) = evaluate uuid none moving (num 501) 7 in
    All (IsFrom moving (num 501)) events
    × TypesFrom 0 events
    × IdsFrom uuid 7 events
    × (last ≡ 7 + length events)
evaluate_lem_example = evaluate_lem uuid none moving (num 501) 7

abbrev breakout : MarketEvent Micro
breakout = event_at "e1" EventType.day_high_breakout EventDirection.up 3 500

request_mono_example :
    rank (request default_config "AAA" (some moving) []).level
    ≤ rank (request default_config "AAA" (some moving) ((breakout ∷ []) ++ ([] ++ []))).level
request_mono_example = request_mono default_config "AAA" (some moving) (breakout ∷ []) [] []

abbrev closes : List Micro
closes = num 10 ∷ num 12 ∷ num 11 ∷ []

ema_of_three : ema 2 closes ≡ some (dec 11 0)
unfolding ema
ema_of_three = refl

rsi_wilder-append_example :
    let (a, b) = averages 2 (changes closes) in
    let d = sub {F = Micro} (num 13) (num 11) in
    (rsi_wilder 2 closes ≡ some (strength a b))
    × (rsi_wilder 2 (num 10 ∷ ((num 12 ∷ num 11 ∷ []) ++ (num 13 ∷ [])))
        ≡ some (strength (wilder 2 a (gain d)) (wilder 2 b (loss d))))
rsi_wilder-append_example =
    rsi_wilder-append 2 (num 10) (num 13) (num 12 ∷ num 11 ∷ []) (omega arith) (omega arith)
