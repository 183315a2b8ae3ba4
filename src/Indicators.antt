-- ===== src/Indicators.antt =====
-- src/market_sentinel/features/indicators.py and the session's extremes in market_data/session.py. A
-- period is not negative here; the source answers None for a negative one, as for zero.
pub mod Streaming
use market_sentinel.Base.{
  ℕ, zero, suc, ◌+◌, ◌-◌, Bool, true, false, ◌&&◌, ◌||◌, Option, none, some, List, [], ◌∷◌, map,
  length, drop, eqb, ltb, if◌then◌else◌,
}
use market_sentinel.Base.Float.{Float, le, lt, eq, add, sub, mul, div, neg, num, max_of, min_of}
use market_sentinel.Domain.{MarketSnapshot}

-- `xs[:n]`
abbrev pub take : {A : Type 0} → ℕ → List A → List A
take zero xs = []
take (suc n) [] = []
take (suc n) (x ∷ xs) = x ∷ take n xs

module _ {F : Type 0} ⦃f : Float F⦄ where
  -- the built-in `sum`, from a start
  abbrev pub sum_from : F → List F → F
  sum_from a [] = a
  sum_from a (x ∷ xs) = sum_from (add a x) xs

  -- `sum(xs[:period]) / period`
  abbrev pub seed : ℕ → List F → F
  seed period xs = div (sum_from (num 0) (take period xs)) (num period)

  -- one turn of the loop of `ema`
  abbrev pub ema_step : ℕ → F → F → F
  ema_step period value close =
      let k = div (num 2) (num (period + 1)) in add (mul close k) (mul value (sub (num 1) k))

  abbrev pub ema_loop : ℕ → F → List F → F
  ema_loop period value [] = value
  ema_loop period value (close ∷ closes) = ema_loop period (ema_step period value close) closes

  unfoldable pub ema : ℕ → List F → Option F
  ema period closes =
      if eqb period 0 || ltb (length closes) period
      then none
      else some (ema_loop period (seed period closes) (drop period closes))

  -- `changes`: each close less the one before it
  abbrev pub changes_from : F → List F → List F
  changes_from last [] = []
  changes_from last (close ∷ closes) = sub close last ∷ changes_from close closes

  abbrev pub changes : List F → List F
  changes [] = []
  changes (close ∷ closes) = changes_from close closes

  abbrev pub gain : F → F
  gain change = max_of change (num 0)

  abbrev pub loss : F → F
  loss change = max_of (neg change) (num 0)

  -- `(avg * (period - 1) + x) / period`
  abbrev pub wilder : ℕ → F → F → F
  wilder period average x = div (add (mul average (num (period - 1))) x) (num period)

  -- the loop over the gains and losses after the first ones
  abbrev pub averages_loop : ℕ → F → F → List F → List F → F × F
  averages_loop period avg_gain avg_loss (g ∷ gains) (l ∷ losses) =
      averages_loop period (wilder period avg_gain g) (wilder period avg_loss l) gains losses
  averages_loop period avg_gain avg_loss _ _ = (avg_gain, avg_loss)

  -- `avg_gain` and `avg_loss` after the loop
  unfoldable pub averages : ℕ → List F → F × F
  averages period cs =
      let gains = map gain cs in
      let losses = map loss cs in
      averages_loop period (seed period gains) (seed period losses) (drop period gains)
        (drop period losses)

  abbrev pub strength : F → F → F
  strength avg_gain avg_loss =
      if eq avg_gain (num 0) && eq avg_loss (num 0)
      then num 50
      else if eq avg_loss (num 0)
      then num 100
      else if eq avg_gain (num 0)
      then num 0
      else sub (num 100) (div (num 100) (add (num 1) (div avg_gain avg_loss)))

  unfoldable pub rsi_wilder : ℕ → List F → Option F
  unfolding averages
  rsi_wilder period closes =
      let (avg_gain, avg_loss) = averages period (changes closes) in
      if eqb period 0 || ltb (length closes) (period + 1)
      then none
      else some (strength avg_gain avg_loss)

  abbrev pub vwap_of : MarketSnapshot F → Option F → Option F × Option Bool
  vwap_of snapshot none = (none, none)
  vwap_of snapshot (some turnover) =
      let vwap = div turnover snapshot.volume in
      if le snapshot.volume (num 0)
      then (none, none)
      else (some vwap, some (lt vwap snapshot.price))

  unfoldable pub session_vwap : MarketSnapshot F → Option F × Option Bool
  session_vwap snapshot = vwap_of snapshot snapshot.turnover

  unfoldable pub session_extreme_high : MarketSnapshot F → F
  session_extreme_high snapshot = max_of snapshot.price snapshot.high

  unfoldable pub session_extreme_low : MarketSnapshot F → F
  session_extreme_low snapshot = min_of snapshot.price snapshot.low
