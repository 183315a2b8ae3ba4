-- ===== src/Features/Bars.antt =====
-- src/market_sentinel/features/bars.py: the completed minute bars of the session.
use market_sentinel.Base.{
  Bool, true, false, not, ◌||◌, Option, none, some, List, [], ◌∷◌, ◌++◌, map, if◌then◌else◌, last?,
  or_else,
}
use market_sentinel.Base.Float.{Float, le, lt, eq, add, sub, mul, div, num, max_of, min_of}
use market_sentinel.Domain.{MarketBar, MarketSnapshot}
use market_sentinel.Session.{Platform, is_same_session}

-- an entry of `buckets`: the start of a minute and its snapshots in the order they came
abbrev pub Bucket : Type 0 → Type 0
Bucket F = F × List (MarketSnapshot F)

-- what the loop over the buckets carries: `prev_end`, `last_volume` and `last_turnover`
pub record Baseline (F : Type 0) : Type 0 where
  pub prev_end : Option F
  pub last_volume : Option F
  pub last_turnover : Option F

module _ {F : Type 0} ⦃f : Float F⦄ where
  -- the built-in `sorted`, which is stable, by a key
  abbrev pub insert_by : {A : Type 0} → (A → F) → A → List A → List A
  insert_by key x [] = x ∷ []
  insert_by key x (y ∷ ys) =
      let rest = insert_by key x ys in if lt (key y) (key x) then y ∷ rest else x ∷ (y ∷ ys)

  abbrev pub sorted : {A : Type 0} → (A → F) → List A → List A
  sorted key [] = []
  sorted key (x ∷ xs) = insert_by key x (sorted key xs)

  -- the built-in `max` and `min` of a list with the first element `a`
  abbrev pub max_from : F → List F → F
  max_from a [] = a
  max_from a (x ∷ xs) = max_from (max_of a x) xs

  abbrev pub min_from : F → List F → F
  min_from a [] = a
  min_from a (x ∷ xs) = min_from (min_of a x) xs

  -- `buckets.setdefault(start, []).append(snapshot)`
  abbrev pub add_to_bucket : F → MarketSnapshot F → List (Bucket F) → List (Bucket F)
  add_to_bucket start s [] = (start, s ∷ []) ∷ []
  add_to_bucket start s ((t, group) ∷ buckets) =
      let rest = add_to_bucket start s buckets in
      if eq t start then (t, group ++ (s ∷ [])) ∷ buckets else (t, group) ∷ rest

  -- `_interval_delta`
  unfoldable pub interval_delta : Option F → Option F → Bool → Option F
  interval_delta (some current) (some previous) true = some (max_of (num 0) (sub current previous))
  interval_delta _ _ _ = none

  -- `prev_end is not None and start == prev_end`
  abbrev pub is_contiguous : Option F → F → Bool
  is_contiguous none start = false
  is_contiguous (some prev_end) start = eq start prev_end

  abbrev pub price_of : MarketSnapshot F → F
  price_of s = s.price

  abbrev pub time_of : MarketSnapshot F → F
  time_of s = s.market_timestamp

  -- the last of a group that begins with `g`
  abbrev pub last_of : MarketSnapshot F → List (MarketSnapshot F) → MarketSnapshot F
  last_of g gs = or_else (last? gs) g

  -- the bar of a sorted group that begins with `g`
  unfoldable pub bar_of :
      F → F → Baseline F → MarketSnapshot F → List (MarketSnapshot F) → MarketBar F
  unfolding interval_delta
  bar_of bar_seconds start base g gs =
      let last = last_of g gs in
      let contiguous = is_contiguous base.prev_end start in
      record {
        symbol = last.symbol;
        start_timestamp = start;
        end_timestamp = add start bar_seconds;
        open_price = g.price;
        high = max_from g.price (map price_of gs);
        low = min_from g.price (map price_of gs);
        close = last.price;
        volume = interval_delta (some last.volume) base.last_volume contiguous;
        turnover = interval_delta last.turnover base.last_turnover contiguous;
      }

  abbrev pub baseline_after : F → F → MarketSnapshot F → Baseline F
  baseline_after bar_seconds start last = record {
    prev_end = some (add start bar_seconds);
    last_volume = some last.volume;
    last_turnover = last.turnover;
  }

  abbrev pub initial_baseline : Baseline F
  initial_baseline = record { prev_end = none; last_volume = none; last_turnover = none }

  -- The loop over the sorted buckets, with their groups sorted. No bucket is empty: each is made with a
  -- snapshot in it.
  unfoldable pub bars_from : F → Baseline F → List (Bucket F) → List (MarketBar F)
  unfolding bar_of
  bars_from bar_seconds base [] = []
  bars_from bar_seconds base ((start, []) ∷ buckets) = bars_from bar_seconds base buckets
  bars_from bar_seconds base ((start, g ∷ gs) ∷ buckets) =
      bar_of bar_seconds start base g gs
      ∷ bars_from bar_seconds (baseline_after bar_seconds start (last_of g gs)) buckets

  abbrev pub sort_groups : List (Bucket F) → List (Bucket F)
  sort_groups [] = []
  sort_groups ((start, group) ∷ buckets) = (start, sorted time_of group) ∷ sort_groups buckets

  abbrev pub start_of : Bucket F → F
  start_of (start, group) = start

module _ {F : Type 0} ⦃f : Float F⦄ (lib : Platform F) where
  -- `math.floor(t / bar_seconds) * bar_seconds`
  abbrev pub minute_of : F → F → F
  minute_of bar_seconds t = mul (lib.floor (div t bar_seconds)) bar_seconds

  -- the loop over the snapshots
  unfoldable pub collect : F → F → List (MarketSnapshot F) → List (Bucket F) → List (Bucket F)
  unfolding is_same_session
  collect bar_seconds latest_ts [] buckets = buckets
  collect bar_seconds latest_ts (s ∷ snapshots) buckets =
      let start = minute_of bar_seconds s.market_timestamp in
      let skipped =
        not (is_same_session lib s.market_timestamp latest_ts)
        || le (minute_of bar_seconds latest_ts) start in
      collect bar_seconds latest_ts snapshots
        (if skipped then buckets else add_to_bucket start s buckets)

  unfoldable pub completed_minute_bars : List (MarketSnapshot F) → F → F → List (MarketBar F)
  unfolding collect bars_from
  completed_minute_bars snapshots latest_ts bar_seconds =
      if le bar_seconds (num 0)
      then []
      else bars_from bar_seconds initial_baseline
          (sort_groups (sorted start_of (collect bar_seconds latest_ts snapshots [])))
