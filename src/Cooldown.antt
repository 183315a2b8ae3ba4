-- ===== src/Cooldown.antt =====
-- src/market_sentinel/signals/cooldown.py: alerts of one signal are held back for a while, on the
-- monotonic clock, whose reading is the argument `now`.
pub mod Spacing
use market_sentinel.Base.{String, Bool, true, false, Option, none, some, ltb, if◌then◌else◌}
use market_sentinel.Base.Eq.{string_eq}
use market_sentinel.Base.Dict.{Dict, get, set}
use market_sentinel.Base.Float.{Float, le, sub, dec}
use market_sentinel.Domain.{SignalPriority, priority_rank}

pub record CooldownGate (F : Type 0) : Type 0 where
  pub cooldown_s : F
  pub last : Dict String (F × SignalPriority)

module _ {F : Type 0} ⦃f : Float F⦄ where
  abbrev pub default_cooldown_s : F
  default_cooldown_s = dec 3000 1

  abbrev allow_after :
      F
      → String
      → SignalPriority
      → Option (F × SignalPriority)
      → CooldownGate F
      → Bool × CooldownGate F
  allow_after now signal_id priority none g =
      (true, record g { last = set signal_id (now, priority) g.last })
  allow_after now signal_id priority (some (last_mono, last_priority)) g =
      let marked = record g { last = set signal_id (now, priority) g.last } in
      if le g.cooldown_s (sub now last_mono)
      then (true, marked)
      else if ltb (priority_rank last_priority) (priority_rank priority)
      then (true, marked)
      else (false, g)

  unfoldable pub allow : F → String → SignalPriority → CooldownGate F → Bool × CooldownGate F
  allow now signal_id priority g = allow_after now signal_id priority (get signal_id g.last) g
