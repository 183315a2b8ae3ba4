-- ===== src/Events/Severity.antt =====
-- The severities of a move and of a volume spike, and the direction that goes with them.
use market_sentinel.Base.{
  ℕ, ◌≤◌, String, ◌≡◌, refl, ◌⊎◌, inl, inr, Bool, true, false, ◌||◌, Option, none, some, List, [],
  ◌∷◌, arith, eqb, Bool-cases,
}
use market_sentinel.Base.Float.{Float, abs}
use market_sentinel.Domain.{MarketEvent, MarketFeatures}
use market_sentinel.Events.{
  rapid_move_severity, volume_spike_severity, one_minute_severity, five_minute_severity,
  move_direction, direction_of, breakout_severity,
}
use market_sentinel.Events.Rules.{rapid_move_rule, volume_spike_rule, price_volume_expansion_rule}

module _ {F : Type 0} ⦃f : Float F⦄ where
  pub rapid_move_severity_bounds :
      (c1 c5 : Option F) (s : ℕ) → rapid_move_severity c1 c5 ≡ some s → (2 ≤ s) × (s ≤ 5)
  unfolding rapid_move_severity
  rapid_move_severity_bounds c1 c5 s h = ground arith

  pub volume_spike_severity_bounds :
      (r1 r5 : Option F) (s : ℕ) → volume_spike_severity r1 r5 ≡ some s → (2 ≤ s) × (s ≤ 5)
  unfolding volume_spike_severity
  volume_spike_severity_bounds r1 r5 s h = ground arith

  pub breakout_severity_bounds : (x : F) → (3 ≤ breakout_severity x) × (breakout_severity x ≤ 5)
  unfolding breakout_severity
  breakout_severity_bounds x = ground arith

  -- the change that reached the severity by its own thresholds
  abbrev pub Reached : Option F → Option F → ℕ → F → Type 0
  Reached c1 c5 s c =
      ((c1 ≡ some c) × (one_minute_severity (abs c) ≡ s))
      ⊎ ((c5 ≡ some c) × (five_minute_severity (abs c) ≡ s))

  -- The direction of a rapid move is the sign of a change, of one minute or of five, which by its own
  -- thresholds has the severity of the move: the fallback of `move_direction` is never taken.
  pub move_direction_lem :
      (c1 c5 : Option F) (s : ℕ)
      → rapid_move_severity c1 c5 ≡ some s
      → (c : F) × Reached c1 c5 s c × (move_direction c1 c5 s ≡ direction_of (some c))
  unfolding rapid_move_severity move_direction
  move_direction_lem none none s h = absurd (ground arith)
  move_direction_lem none (some c) s h = (c, inr (refl, ground arith), ground arith)
  move_direction_lem (some c) none s h = (c, inl (refl, ground arith), ground arith)
  move_direction_lem (some c) (some d) s h =
      elim (Bool-cases (eqb (one_minute_severity (abs c)) s)) [
        | inl e ↦ (c, inl (refl, ground arith), ground arith)
        | inr e ↦ (d, inr (refl, ground arith), ground arith)
      ]

  abbrev pub is_empty : List (MarketEvent F) → Bool
  is_empty [] = true
  is_empty (e ∷ es) = false

  -- `PriceVolumeExpansionRule` builds an event exactly when `RapidMoveRule` and `VolumeSpikeRule` both do.
  pub expansion_of_both :
      (i j k : String) (c : MarketFeatures F) (now : F)
      → is_empty (price_volume_expansion_rule i c now)
        ≡ (is_empty (rapid_move_rule j c now) || is_empty (volume_spike_rule k c now))
  unfolding price_volume_expansion_rule rapid_move_rule volume_spike_rule
  expansion_of_both i j k c now =
      by_severity (rapid_move_severity c.change_1m c.change_5m)
        (volume_spike_severity c.volume_ratio_1m c.volume_ratio_5m)
        (rapid_move_severity_bounds c.change_1m c.change_5m)
        (volume_spike_severity_bounds c.volume_ratio_1m c.volume_ratio_5m)
    where
      by_severity :
          (m v : Option ℕ)
          → ((s : ℕ) → m ≡ some s → (2 ≤ s) × (s ≤ 5))
          → ((s : ℕ) → v ≡ some s → (2 ≤ s) × (s ≤ 5))
          → is_empty (market_sentinel.Events.Rules.expansion_at i c now m v) ≡ (
              is_empty (market_sentinel.Events.Rules.rapid_move_at j c now m)
              || is_empty (market_sentinel.Events.Rules.volume_spike_at k c now v))
      by_severity none v hm hv = refl
      by_severity (some m) none hm hv = refl
      by_severity (some m) (some v) hm hv = ground (arith, hm m refl, hv v refl)
