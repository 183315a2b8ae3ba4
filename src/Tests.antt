-- ===== src/Tests.antt =====
-- Runs of the definitions at concrete inputs, over fixed-point numbers, and the data that they share.
mod Lists
mod Feeds
mod Signals
mod Composing
mod Days
mod Running
mod Asking
use market_sentinel.Base.{ℕ, String, true, Option, none, some, List, [], ◌∷◌}
use market_sentinel.Base.Float.{Micro, micro_float, num, dec}
use market_sentinel.Domain.{
  EventType, EventDirection, MarketSnapshot, MarketEvent, MarketFeatures, WatchItem,
}

-- a snapshot of a symbol at a time
abbrev pub quote_at : String → ℕ → ℕ → MarketSnapshot Micro
quote_at symbol time price = record {
  symbol = symbol;
  price = num price;
  open_price = num 100;
  high = num 120;
  low = num 90;
  prev_close = num 100;
  volume = num 1000;
  turnover = none;
  market_timestamp = num time;
  received_timestamp = num time;
}

-- an event at a time
abbrev pub event_at : String → EventType → EventDirection → ℕ → ℕ → MarketEvent Micro
event_at id type direction severity time = record {
  id = id;
  symbol = "AAA";
  type = type;
  direction = direction;
  severity = severity;
  market_timestamp = num time;
  received_timestamp = num time;
  detected_timestamp = num time;
  metrics = [];
  dedupe_key = "AAA|move";
  ttl_s = num 60;
  rule_name = "rule";
}

-- features with a move of 1.6 % in a minute, on five times the usual volume
abbrev pub moving : MarketFeatures Micro
moving = record {
  symbol = "AAA";
  market_timestamp = num 500;
  received_timestamp = num 501;
  change_1m = some (dec 16 3);
  change_5m = some (dec 5 3);
  change_15m = none;
  change_day = none;
  day_range_position = none;
  volume_1m = none;
  volume_5m = none;
  volume_ratio_1m = some (dec 35 1);
  volume_ratio_5m = some (dec 50 1);
  vwap = none;
  above_vwap = none;
  ema5 = none;
  ema20 = none;
  rsi14 = none;
  session_high_ref = some (num 100);
  session_low_ref = none;
  session_high_obs = num 101;
  session_low_obs = num 95;
}

abbrev pub item : String → WatchItem
item symbol = record { symbol = symbol; enabled = true }
