-- ===== src/Events.antt =====
-- src/market_sentinel/events/thresholds.py and rules/common.py: the thresholds, the severities that
-- they give, the direction of a move, and the event that a rule builds. The identifier that
-- `uuid.uuid4().hex` makes is an argument.
pub mod Rules
pub mod Detector
pub mod Severity
pub mod Shape
use market_sentinel.Base.{
  ℕ, String, Bool, true, false, Option, none, some, List, [], ◌∷◌, ltb, eqb, if◌then◌else◌, or_else,
  ◌||◌,
}
use market_sentinel.Base.Text.{concat}
use market_sentinel.Base.Float.{Float, le, lt, eq, num, dec, abs}
use market_sentinel.Domain.{
  EventType, EventDirection, type_value, direction_value, MarketEvent, MarketFeatures, Metric,
}

-- `max` and `min` of two integers
abbrev pub max_nat : ℕ → ℕ → ℕ
max_nat a b = if ltb a b then b else a

abbrev pub min_nat : ℕ → ℕ → ℕ
min_nat a b = if ltb b a then b else a

-- `severity or None`
abbrev pub or_none : ℕ → Option ℕ
or_none n = if eqb n 0 then none else some n

unfoldable pub dedupe_key : String → EventType → EventDirection → String
dedupe_key symbol type direction =
    concat (symbol ∷ "|" ∷ type_value type ∷ "|" ∷ direction_value direction ∷ [])

module _ {F : Type 0} ⦃f : Float F⦄ where
  abbrev pub rapid_1m_sev2 : F
  rapid_1m_sev2 = dec 6 3

  abbrev pub rapid_1m_sev3 : F
  rapid_1m_sev3 = dec 10 3

  abbrev pub rapid_5m_sev3 : F
  rapid_5m_sev3 = dec 12 3

  abbrev pub rapid_1m_sev4 : F
  rapid_1m_sev4 = dec 15 3

  abbrev pub rapid_5m_sev4 : F
  rapid_5m_sev4 = dec 20 3

  abbrev pub rapid_5m_sev5 : F
  rapid_5m_sev5 = dec 35 3

  abbrev pub vol_5m_sev2 : F
  vol_5m_sev2 = dec 18 1

  abbrev pub vol_5m_sev3 : F
  vol_5m_sev3 = dec 25 1

  abbrev pub vol_1m_sev3 : F
  vol_1m_sev3 = dec 30 1

  abbrev pub vol_5m_sev4 : F
  vol_5m_sev4 = dec 40 1

  abbrev pub vol_5m_sev5 : F
  vol_5m_sev5 = dec 60 1

  abbrev pub breakout_sev4 : F
  breakout_sev4 = dec 3 3

  abbrev pub breakout_sev5 : F
  breakout_sev5 = dec 8 3

  abbrev pub vwap_cross_sev3_5m : F
  vwap_cross_sev3_5m = dec 8 3

  abbrev pub ttl_short_s : F
  ttl_short_s = dec 600 1

  abbrev pub ttl_long_s : F
  ttl_long_s = dec 1200 1

  -- the first block of `rapid_move_severity`: what `severity` is after it
  abbrev pub rapid_1m : Option F → ℕ → ℕ
  rapid_1m none severity = severity
  rapid_1m (some change) severity =
      let magnitude = abs change in
      if le rapid_1m_sev4 magnitude
      then max_nat severity 4
      else if le rapid_1m_sev3 magnitude
      then max_nat severity 3
      else if le rapid_1m_sev2 magnitude
      then max_nat severity 2
      else severity

  abbrev pub rapid_5m : Option F → ℕ → ℕ
  rapid_5m none severity = severity
  rapid_5m (some change) severity =
      let magnitude = abs change in
      if le rapid_5m_sev5 magnitude
      then max_nat severity 5
      else if le rapid_5m_sev4 magnitude
      then max_nat severity 4
      else if le rapid_5m_sev3 magnitude
      then max_nat severity 3
      else severity

  unfoldable pub rapid_move_severity : Option F → Option F → Option ℕ
  rapid_move_severity change_1m change_5m = or_none (rapid_5m change_5m (rapid_1m change_1m 0))

  abbrev pub spike_5m : Option F → ℕ → ℕ
  spike_5m none severity = severity
  spike_5m (some ratio) severity =
      if le vol_5m_sev5 ratio
      then max_nat severity 5
      else if le vol_5m_sev4 ratio
      then max_nat severity 4
      else if le vol_5m_sev3 ratio
      then max_nat severity 3
      else if le vol_5m_sev2 ratio
      then max_nat severity 2
      else severity

  abbrev pub spike_1m : Option F → ℕ → ℕ
  spike_1m none severity = severity
  spike_1m (some ratio) severity = if le vol_1m_sev3 ratio then max_nat severity 3 else severity

  unfoldable pub volume_spike_severity : Option F → Option F → Option ℕ
  volume_spike_severity ratio_1m ratio_5m = or_none (spike_1m ratio_1m (spike_5m ratio_5m 0))

  unfoldable pub one_minute_severity : F → ℕ
  one_minute_severity magnitude =
      if le rapid_1m_sev4 magnitude
      then 4
      else if le rapid_1m_sev3 magnitude
      then 3
      else if le rapid_1m_sev2 magnitude
      then 2
      else 0

  unfoldable pub five_minute_severity : F → ℕ
  five_minute_severity magnitude =
      if le rapid_5m_sev5 magnitude
      then 5
      else if le rapid_5m_sev4 magnitude
      then 4
      else if le rapid_5m_sev3 magnitude
      then 3
      else 0

  -- `chosen` after the first test of `move_direction`, and after the second
  abbrev pub choose_5m : Option F → ℕ → Option F
  choose_5m none severity = none
  choose_5m (some change) severity =
      if eqb (five_minute_severity (abs change)) severity then some change else none

  abbrev pub choose_1m : Option F → ℕ → Option F → Option F
  choose_1m none severity chosen = chosen
  choose_1m (some change) severity chosen =
      if eqb (one_minute_severity (abs change)) severity then some change else chosen

  -- `chosen` where neither test chose
  abbrev pub choose_any : Option F → Option F → Option F → Option F
  choose_any (some chosen) change_1m change_5m = some chosen
  choose_any none (some change) change_5m = some change
  choose_any none none change_5m = change_5m

  -- the sign of what was chosen
  abbrev pub direction_of : Option F → EventDirection
  direction_of none = EventDirection.flat
  direction_of (some chosen) =
      if eq chosen (num 0)
      then EventDirection.flat
      else if lt (num 0) chosen
      then EventDirection.up
      else EventDirection.down

  unfoldable pub move_direction : Option F → Option F → ℕ → EventDirection
  unfolding one_minute_severity five_minute_severity
  move_direction change_1m change_5m severity =
      direction_of (
        choose_any (choose_1m change_1m severity (choose_5m change_5m severity)) change_1m
          change_5m)

  unfoldable pub breakout_severity : F → ℕ
  breakout_severity excess =
      if le breakout_sev5 excess then 5 else if le breakout_sev4 excess then 4 else 3

  -- `None` or a float, as a metric
  abbrev pub metric : Option F → Metric F
  metric none = Metric.null
  metric (some x) = Metric.number x

  unfoldable pub build_event :
      String
      → MarketFeatures F
      → EventType
      → EventDirection
      → ℕ
      → F
      → List (String × Metric F)
      → F
      → String
      → MarketEvent F
  unfolding dedupe_key
  build_event id current event_type direction severity detected_at metrics ttl_s rule_name =
      record {
        id = id;
        symbol = current.symbol;
        type = event_type;
        direction = direction;
        severity = severity;
        market_timestamp = current.market_timestamp;
        received_timestamp = current.received_timestamp;
        detected_timestamp = detected_at;
        metrics = metrics;
        dedupe_key = dedupe_key current.symbol event_type direction;
        ttl_s = ttl_s;
        rule_name = rule_name;
      }
