-- ===== src/Tests/Days.antt =====
-- Tests of the features.
use mathlib.Core.Bool.{false≢true}
use native.Mathlib.Nat.{div-le_of_le-mul}
use market_sentinel.Base.{
  ◌≤◌, ℕ, String, ◌≡◌, refl, ap, sym, ◌∙◌, true, false, ◌⊎◌, none, some, [], ◌∷◌, arith, All, Bool,
  ◌*◌, ◌/◌,
}
use market_sentinel.Base.Eq.{string_eq, ◌==◌}
use market_sentinel.Base.Int.{pos, negsuc, magnitude, signed_as}
use market_sentinel.Base.Float.{
  Micro, Micro-IsOrdered, Micro-IsMonotone, micro_float, num, lt, ◌≼◌, ◌≺◌,
}
use market_sentinel.Domain.{MarketSnapshot, MarketFeatures}
use market_sentinel.RingBuffer.{RingBuffer, latest, since, at_or_before, bisect_right}
use market_sentinel.RingBuffer.Place.{Ascending}
use market_sentinel.Indicators.{session_extreme_high, session_extreme_low}
use market_sentinel.Session.{Platform, session_id, is_same_session}
use market_sentinel.Features.Bars.{minute_of, completed_minute_bars}
use market_sentinel.Features.Engine.{
  default_policy, features_at, with_ratios, is_skipped, session_refs, compute,
}
use market_sentinel.Features.Rolling.{
  volume_ratio, volume_delta, resolve_anchor, checked_as_of, historical_volume_deltas, samples_from,
  sample, snapshot_as_of,
}
use market_sentinel.Features.Day.{IsCalendar, only_day}
use market_sentinel.Features.Isolation.{compute-only_day}
use market_sentinel.Features.Order.{Increasing}
use market_sentinel.Features.Shape.{IsBar, bar_start, completed_minute_bars_lem}
use market_sentinel.Features.DayRange.{
  IsFraction, Within, InUnit, session_refs-Within, day_range_position-InUnit,
}
use market_sentinel.Tests.{quote_at}

-- a calendar with two days, and minutes that begin where they are asked for
abbrev date_if : Bool → String
date_if true = "d1"
date_if false = "d2"

abbrev is_first : Micro → Bool
is_first t = lt t (num 1000)

abbrev pub calendar : Platform Micro
calendar = record { date_at = λ hours t. date_if (is_first t); floor = λ x. x }

two_days : date_if true ≡ date_if false → Unit {0} → ⊥
two_days e u = false≢true (sym (ap (λ (s : String). s == "d1") e))

convex_if :
    (x y z : Bool)
    → (y ≡ true → x ≡ true)
    → (z ≡ true → y ≡ true)
    → date_if x ≡ date_if z
    → date_if y ≡ date_if z
convex_if x true true h k e = refl
convex_if x false false h k e = refl
convex_if x false true h k e = absurd (false≢true (k refl))
convex_if x true false h k e = absurd (two_days (sym (ap date_if (h refl)) ∙ e) tt)

calendar-IsCalendar : IsCalendar calendar
unfolding session_id
calendar-IsCalendar = record {
  convex = λ a b c h k e.
      convex_if (is_first a) (is_first b) (is_first c) (λ y. ground arith) (λ z. ground arith) e;
}

magnitude-le : (a b : Micro) → num 0 ≼ a → a ≼ b → magnitude a * 1_000_000 ≤ magnitude b * 1_000_000
magnitude-le a b p q = ground arith

div_at_most : (a b : Micro) → num 0 ≼ a → a ≼ b → magnitude a * 1_000_000 / magnitude b ≤ 1_000_000
div_at_most a b p q =
    div-le_of_le-mul (magnitude b) {m = magnitude a * 1_000_000} {n = 1_000_000}
      (magnitude-le a b p q)

signed_at_most :
    (a b : Micro) (m : ℕ) → num 0 ≼ a → num 0 ≺ b → m ≤ 1_000_000 → signed_as a b m ≼ num 1
signed_at_most (pos a) (pos b) m p h k = ground arith
signed_at_most (pos a) (negsuc b) m p h k = absurd (ground arith)
signed_at_most (negsuc a) b m p h k = absurd (ground arith)

Micro-IsFraction : IsFraction Micro
Micro-IsFraction = record {
  div_nonneg = λ a b p q. ground arith;
  div_le_one = λ a b p q h.
      signed_at_most a b (magnitude a * 1_000_000 / magnitude b) p h (div_at_most a b p q);
}

-- two quotes of one day and two of the next
abbrev buffer : RingBuffer Micro
buffer = record {
  retention_s = num 5000;
  max_size = 100;
  items =
      quote_at "AAA" 900 100
      ∷ quote_at "AAA" 960 101
      ∷ quote_at "AAA" 1020 102
      ∷ quote_at "AAA" 1080 103
      ∷ [];
}

buffer-Ascending : Ascending buffer.items
buffer-Ascending = ((refl, (refl, (refl, tt))), ((refl, (refl, tt)), ((refl, tt), (tt, tt))))

compute-only_day_example :
    compute calendar default_policy (only_day calendar "d2" buffer)
    ≡ compute calendar default_policy buffer
unfolding session_id latest
compute-only_day_example =
    compute-only_day calendar Micro-IsOrdered calendar-IsCalendar (quote_at "AAA" 1080 103)
      default_policy buffer buffer-Ascending refl

session_refs-Within_example :
    All
      (λ s.
        (is_skipped calendar (quote_at "AAA" 1080 103) s ≡ true)
        ⊎ Within
            (session_refs calendar buffer (quote_at "AAA" 1080 103))
            (session_extreme_high s)
            (session_extreme_low s))
      (since (num 0) buffer)
session_refs-Within_example =
    session_refs-Within Micro-IsOrdered calendar (quote_at "AAA" 1080 103) buffer

completed_minute_bars_lem_example :
    let bars = completed_minute_bars calendar buffer.items (num 1080) (num 60) in
    Increasing bar_start bars
    × All (λ b. bar_start b ≺ minute_of calendar (num 60) (num 1080)) bars
    × All IsBar bars
completed_minute_bars_lem_example =
    completed_minute_bars_lem Micro-IsOrdered calendar (num 60) (num 1080) buffer.items

abbrev newest : MarketSnapshot Micro
newest = quote_at "AAA" 1080 103

abbrev features : MarketFeatures Micro
features = features_at calendar default_policy buffer newest none none

compute_here : compute calendar default_policy buffer ≡ some (some features)
unfolding compute volume_ratio volume_delta resolve_anchor checked_as_of historical_volume_deltas
    samples_from sample snapshot_as_of at_or_before bisect_right latest with_ratios default_policy
    is_same_session session_id
compute_here = refl

day_range_position-InUnit_example : InUnit features.day_range_position
day_range_position-InUnit_example =
    day_range_position-InUnit Micro-IsOrdered Micro-IsMonotone Micro-IsFraction calendar
      default_policy buffer features compute_here
