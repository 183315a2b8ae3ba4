-- ===== src/Scheduler.antt =====
-- src/market_sentinel/scheduler: the attention level of each symbol, and when it is due for a fetch.
-- The monotonic clock's reading is an argument `now` of each method that reads it.
pub mod Transitions
pub mod Due
use market_sentinel.Base.{
  ℕ, String, Bool, true, false, not, ◌&&◌, ◌||◌, Option, none, some, List, [], ◌∷◌, if◌then◌else◌,
  ltb, or_else, filter,
}
use market_sentinel.Base.Eq.{string_eq, ◌==◌}
use market_sentinel.Base.Dict.{Dict, get, set, contains}
use market_sentinel.Base.Float.{Float, le, lt, sub, num, max_of, min_of, dec}
use market_sentinel.Domain.{SchedulerLevel, level_eq}

pub record SchedulerPolicy (F : Type 0) : Type 0 where
  pub cold_interval_s : F
  pub warm_interval_s : F
  pub hot_interval_s : F
  pub upgrade_dwell_s : F
  pub hot_downgrade_dwell_s : F
  pub warm_downgrade_dwell_s : F

pub record AdaptiveScheduler (F : Type 0) : Type 0 where
  pub policy : SchedulerPolicy F
  pub levels : Dict String SchedulerLevel
  pub last_change_mono : Dict String F
  pub last_fetch_mono : Dict String F

-- `_RANK`
abbrev pub rank : SchedulerLevel → ℕ
rank SchedulerLevel.cold = 0
rank SchedulerLevel.warm = 1
rank SchedulerLevel.hot = 2

module _ {F : Type 0} ⦃f : Float F⦄ where
  -- the defaults of the dataclass
  abbrev pub default_policy : SchedulerPolicy F
  default_policy = record {
    cold_interval_s = dec 100 1;
    warm_interval_s = dec 30 1;
    hot_interval_s = dec 10 1;
    upgrade_dwell_s = num 0;
    hot_downgrade_dwell_s = dec 300 1;
    warm_downgrade_dwell_s = dec 600 1;
  }

  -- `__init__`
  unfoldable pub new : SchedulerPolicy F → AdaptiveScheduler F
  new policy = record { policy = policy; levels = []; last_change_mono = []; last_fetch_mono = [] }

  unfoldable pub get_level : String → AdaptiveScheduler F → SchedulerLevel
  get_level symbol s = or_else (get symbol s.levels) SchedulerLevel.cold

  -- `_interval`
  unfoldable pub interval : SchedulerLevel → AdaptiveScheduler F → F
  interval SchedulerLevel.hot s = s.policy.hot_interval_s
  interval SchedulerLevel.warm s = s.policy.warm_interval_s
  interval SchedulerLevel.cold s = s.policy.cold_interval_s

  -- `_required_dwell`
  unfoldable pub required_dwell : SchedulerLevel → SchedulerLevel → AdaptiveScheduler F → F
  required_dwell current target s =
      if ltb (rank current) (rank target)
      then s.policy.upgrade_dwell_s
      else if current == SchedulerLevel.hot
      then s.policy.hot_downgrade_dwell_s
      else s.policy.warm_downgrade_dwell_s

  -- `_dwell_elapsed`
  unfoldable pub dwell_elapsed :
      F → String → SchedulerLevel → SchedulerLevel → AdaptiveScheduler F → Bool
  unfolding required_dwell
  dwell_elapsed now symbol current target s = elim (get symbol s.last_change_mono) [
    | none ↦ true
    | some last_change ↦ le (required_dwell current target s) (sub now last_change)
  ]

  -- `self._levels.setdefault(symbol, current)`
  abbrev pub set_default : String → SchedulerLevel → AdaptiveScheduler F → AdaptiveScheduler F
  set_default symbol current s =
      if contains symbol s.levels then s else record s { levels = set symbol current s.levels }

  -- `set_level`, at a level of the enumeration; the answer is whether the symbol is at the level
  unfoldable pub set_level :
      F → Bool → String → SchedulerLevel → AdaptiveScheduler F → Bool × AdaptiveScheduler F
  unfolding dwell_elapsed get_level
  set_level now force symbol level s =
      let current = get_level symbol s in
      if level == current
      then (true, set_default symbol current s)
      else if not force && not (dwell_elapsed now symbol current level s)
      then (false, s)
      else (
        true,
        record s {
          levels = set symbol level s.levels;
          last_change_mono = set symbol now s.last_change_mono;
        },
      )

  -- the test of `due_symbols`
  unfoldable pub is_due : F → AdaptiveScheduler F → String → Bool
  unfolding interval get_level
  is_due now s symbol = elim (get symbol s.last_fetch_mono) [
    | none ↦ true
    | some last_fetch ↦ le (interval (get_level symbol s) s) (sub now last_fetch)
  ]

  unfoldable pub due_symbols : F → List String → AdaptiveScheduler F → List String
  unfolding is_due
  due_symbols now symbols s = filter (is_due now s) symbols

  unfoldable pub mark_fetched : F → String → AdaptiveScheduler F → AdaptiveScheduler F
  mark_fetched now symbol s = record s { last_fetch_mono = set symbol now s.last_fetch_mono }

  -- one entry of `remaining`
  unfoldable pub remaining : F → AdaptiveScheduler F → String → F
  unfolding interval get_level
  remaining now s symbol = elim (get symbol s.last_fetch_mono) [
    | none ↦ num 0
    | some last_fetch ↦ max_of (num 0) (sub (interval (get_level symbol s) s) (sub now last_fetch))
  ]

  -- the built-in `min` of a list that has the first element `a`
  unfoldable pub min_from : F → List F → F
  min_from a [] = a
  min_from a (b ∷ bs) = min_from (min_of a b) bs

  abbrev pub remaining_all : F → AdaptiveScheduler F → List String → List F
  remaining_all now s [] = []
  remaining_all now s (symbol ∷ symbols) = remaining now s symbol ∷ remaining_all now s symbols

  unfoldable pub next_wait_s : F → List String → AdaptiveScheduler F → F
  unfolding remaining min_from
  next_wait_s now [] s = dec 10 1
  next_wait_s now (symbol ∷ symbols) s =
      min_from (remaining now s symbol) (remaining_all now s symbols)
