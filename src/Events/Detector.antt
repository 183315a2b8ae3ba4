-- ===== src/Events/Detector.antt =====
-- src/market_sentinel/events/detector.py and `default_rules`: the rules in turn over one pair of
-- features. `uuid n` is the identifier that the n-th call of `uuid.uuid4` makes, and `next` counts the
-- calls.
use market_sentinel.Base.{ℕ, ◌+◌, String, Option, List, [], ◌∷◌, ◌++◌, length}
use market_sentinel.Base.Float.{Float}
use market_sentinel.Domain.{MarketEvent, MarketFeatures}
use market_sentinel.Events.Rules.{
  rapid_move_rule, volume_spike_rule, price_volume_expansion_rule, day_high_breakout_rule,
  day_low_breakdown_rule, vwap_cross_rule,
}

-- a rule, given the identifier for the event that it may build
abbrev pub Rule : Type 0 → Type 0
Rule F = String → Option (MarketFeatures F) → MarketFeatures F → F → List (MarketEvent F)

module _ {F : Type 0} ⦃f : Float F⦄ where
  abbrev pub default_rules : List (Rule F)
  default_rules =
      (λ id _. rapid_move_rule id)
      ∷ (λ id _. volume_spike_rule id)
      ∷ (λ id _. price_volume_expansion_rule id)
      ∷ (λ id _. day_high_breakout_rule id)
      ∷ (λ id _. day_low_breakdown_rule id)
      ∷ (λ id previous. vwap_cross_rule id previous)
      ∷ []

module _ {F : Type 0} (uuid : ℕ → String) where
  -- the loop of `EventDetector.evaluate`, with the calls of `uuid4` that it has made
  unfoldable pub run_rules :
      List (Rule F)
      → Option (MarketFeatures F)
      → MarketFeatures F
      → F
      → ℕ
      → List (MarketEvent F) × ℕ
  run_rules [] previous current detected_at next = ([], next)
  run_rules (rule ∷ rules) previous current detected_at next =
      let events = rule (uuid next) previous current detected_at in
      let (rest, last) = run_rules rules previous current detected_at (next + length events) in
      (events ++ rest, last)

module _ {F : Type 0} ⦃f : Float F⦄ (uuid : ℕ → String) where
  unfoldable pub evaluate :
      Option (MarketFeatures F) → MarketFeatures F → F → ℕ → List (MarketEvent F) × ℕ
  unfolding run_rules
  evaluate previous current detected_at next =
      run_rules uuid default_rules previous current detected_at next
