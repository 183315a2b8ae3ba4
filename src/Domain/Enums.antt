-- ===== src/Domain/Enums.antt =====
-- src/market_sentinel/domain/enums.py: the string enumerations, their `.value`, and the equality
-- tests of those that the source compares.
use market_sentinel.Base.{ℕ, String, ◌≡◌, arith, eqb, true, ◌↔◌}
use market_sentinel.Base.Eq.{Eq}

pub data SchedulerLevel : Type 0 where
  cold warm hot : SchedulerLevel

pub data FeedStatus : Type 0 where
  live delayed stale disconnected : FeedStatus

pub data EventType : Type 0 where
  rapid_move volume_spike price_volume_expansion day_high_breakout : EventType
  day_low_breakdown vwap_cross : EventType

pub data EventDirection : Type 0 where
  up down flat : EventDirection

pub data SignalPriority : Type 0 where
  info notice important critical : SignalPriority

pub data GeneratedBy : Type 0 where
  rule : GeneratedBy

-- positions in the class body, for the equality tests
abbrev pub level_index : SchedulerLevel → ℕ
level_index SchedulerLevel.cold = 0
level_index SchedulerLevel.warm = 1
level_index SchedulerLevel.hot = 2

abbrev pub status_index : FeedStatus → ℕ
status_index FeedStatus.live = 0
status_index FeedStatus.delayed = 1
status_index FeedStatus.stale = 2
status_index FeedStatus.disconnected = 3

abbrev pub type_index : EventType → ℕ
type_index EventType.rapid_move = 0
type_index EventType.volume_spike = 1
type_index EventType.price_volume_expansion = 2
type_index EventType.day_high_breakout = 3
type_index EventType.day_low_breakdown = 4
type_index EventType.vwap_cross = 5

abbrev pub direction_index : EventDirection → ℕ
direction_index EventDirection.up = 0
direction_index EventDirection.down = 1
direction_index EventDirection.flat = 2

-- `.value` of an `EventType`
unfoldable pub type_value : EventType → String
type_value EventType.rapid_move = "rapid_move"
type_value EventType.volume_spike = "volume_spike"
type_value EventType.price_volume_expansion = "price_volume_expansion"
type_value EventType.day_high_breakout = "day_high_breakout"
type_value EventType.day_low_breakdown = "day_low_breakdown"
type_value EventType.vwap_cross = "vwap_cross"

-- `.value` of an `EventDirection`
unfoldable pub direction_value : EventDirection → String
direction_value EventDirection.up = "up"
direction_value EventDirection.down = "down"
direction_value EventDirection.flat = "none"

pub level_index_iff :
    (a b : SchedulerLevel) → (eqb (level_index a) (level_index b) ≡ true) ↔ (a ≡ b)
level_index_iff a b = ground arith

pub status_index_iff : (a b : FeedStatus) → (eqb (status_index a) (status_index b) ≡ true) ↔ (a ≡ b)
status_index_iff a b = ground arith

pub type_index_iff : (a b : EventType) → (eqb (type_index a) (type_index b) ≡ true) ↔ (a ≡ b)
type_index_iff a b = ground arith

pub direction_index_iff :
    (a b : EventDirection) → (eqb (direction_index a) (direction_index b) ≡ true) ↔ (a ≡ b)
direction_index_iff a b = ground arith

instance abbrev pub level_eq : Eq SchedulerLevel
level_eq = record { beq = λ a b. eqb (level_index a) (level_index b); beq_iff = level_index_iff }

instance abbrev pub status_eq : Eq FeedStatus
status_eq = record {
  beq = λ a b. eqb (status_index a) (status_index b);
  beq_iff = status_index_iff;
}

instance abbrev pub type_eq : Eq EventType
type_eq = record { beq = λ a b. eqb (type_index a) (type_index b); beq_iff = type_index_iff }

instance abbrev pub direction_eq : Eq EventDirection
direction_eq = record {
  beq = λ a b. eqb (direction_index a) (direction_index b);
  beq_iff = direction_index_iff;
}

-- `_PRIORITY_RANK` of the signal modules
abbrev pub priority_rank : SignalPriority → ℕ
priority_rank SignalPriority.info = 1
priority_rank SignalPriority.notice = 2
priority_rank SignalPriority.important = 3
priority_rank SignalPriority.critical = 4

-- `.value` of a `SchedulerLevel`, a `FeedStatus` and a `SignalPriority`
abbrev pub level_value : SchedulerLevel → String
level_value SchedulerLevel.cold = "COLD"
level_value SchedulerLevel.warm = "WARM"
level_value SchedulerLevel.hot = "HOT"

abbrev pub status_value : FeedStatus → String
status_value FeedStatus.live = "LIVE"
status_value FeedStatus.delayed = "DELAYED"
status_value FeedStatus.stale = "STALE"
status_value FeedStatus.disconnected = "DISCONNECTED"

abbrev pub priority_value : SignalPriority → String
priority_value SignalPriority.info = "info"
priority_value SignalPriority.notice = "notice"
priority_value SignalPriority.important = "important"
priority_value SignalPriority.critical = "critical"
