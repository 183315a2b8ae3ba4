-- ===== src/Health.antt =====
-- src/market_sentinel/health: the health of each symbol's feed, from its successes, its failures and the
-- clocks. The monotonic clock's reading is an argument `now`. Log lines are left out.
pub mod Status
pub mod Worst
use market_sentinel.Base.{
  ℕ, suc, ◌+◌, String, Bool, true, false, ◌&&◌, ◌||◌, Option, none, some, List, [], ◌∷◌, leb, ltb,
  if◌then◌else◌, or_else,
}
use market_sentinel.Base.Eq.{string_eq, ◌==◌}
use market_sentinel.Base.Dict.{Dict, get, set}
use market_sentinel.Base.Float.{Float, le, lt, sub, num, max_of, dec}
use market_sentinel.Domain.{FeedStatus, status_eq, MarketSnapshot}

pub record HealthPolicy (F : Type 0) : Type 0 where
  pub delayed_s : F
  pub stale_s : F
  pub disconnect_s : F
  pub disconnect_failures : ℕ

-- `_SymbolHealth`
pub record SymbolHealth (F : Type 0) : Type 0 where
  pub last_success_mono : Option F
  pub consecutive_failures : ℕ
  pub market_timestamp : Option F
  pub received_timestamp : Option F
  pub last_status : Option FeedStatus

pub record FeedHealthTracker (F : Type 0) : Type 0 where
  pub policy : HealthPolicy F
  pub symbols : Dict String (SymbolHealth F)

-- `_WORST`
abbrev pub worst : FeedStatus → ℕ
worst FeedStatus.live = 0
worst FeedStatus.delayed = 1
worst FeedStatus.stale = 2
worst FeedStatus.disconnected = 3

-- what `observe` was told: a snapshot, an error or neither
pub data Observation (F : Type 0) : Type 0 where
  quote : MarketSnapshot F → Observation F
  failure : Observation F
  nothing : Observation F

-- the first of the worst, as `max` with a key answers
abbrev pub worse : FeedStatus → FeedStatus → FeedStatus
worse a b = if ltb (worst a) (worst b) then b else a

module _ {F : Type 0} ⦃f : Float F⦄ where
  -- the defaults of the dataclass
  abbrev pub default_policy : HealthPolicy F
  default_policy = record {
    delayed_s = dec 30 1;
    stale_s = dec 300 1;
    disconnect_s = dec 600 1;
    disconnect_failures = 3;
  }

  abbrev pub new_health : SymbolHealth F
  new_health = record {
    last_success_mono = none;
    consecutive_failures = 0;
    market_timestamp = none;
    received_timestamp = none;
    last_status = none;
  }

  unfoldable pub new : HealthPolicy F → FeedHealthTracker F
  new policy = record { policy = policy; symbols = [] }

  -- the difference of the two stamps where both are there, and not below 0.0
  abbrev pub stamp_gap : Option F → Option F → Option F
  stamp_gap (some received) (some market) = some (max_of (num 0) (sub received market))
  stamp_gap _ _ = none

  -- `_latency`
  unfoldable pub latency : SymbolHealth F → F
  latency r = or_else (stamp_gap r.received_timestamp r.market_timestamp) (num 0)

  -- `_compute` of a symbol that never had a snapshot
  unfoldable pub compute_unseen : HealthPolicy F → SymbolHealth F → FeedStatus
  compute_unseen p r =
      if leb p.disconnect_failures r.consecutive_failures
      then FeedStatus.disconnected
      else if ltb 0 r.consecutive_failures
      then FeedStatus.stale
      else FeedStatus.disconnected

  -- `_compute` of a symbol with a snapshot of a given age
  unfoldable pub compute_seen : HealthPolicy F → SymbolHealth F → F → FeedStatus
  unfolding latency
  compute_seen p r age =
      if leb p.disconnect_failures r.consecutive_failures || le p.disconnect_s age
      then FeedStatus.disconnected
      else if le p.stale_s age
      then FeedStatus.stale
      else if le p.delayed_s (latency r)
      then FeedStatus.delayed
      else FeedStatus.live

  abbrev pub compute_at : F → HealthPolicy F → SymbolHealth F → Option F → FeedStatus
  compute_at now p r none = compute_unseen p r
  compute_at now p r (some last) = compute_seen p r (sub now last)

  -- `_compute`
  unfoldable pub compute : F → HealthPolicy F → Option (SymbolHealth F) → FeedStatus
  unfolding compute_unseen compute_seen
  compute now p none = FeedStatus.disconnected
  compute now p (some r) = compute_at now p r r.last_success_mono

  unfoldable pub peek_status : F → String → FeedHealthTracker F → FeedStatus
  unfolding compute
  peek_status now symbol t = compute now t.policy (get symbol t.symbols)

  -- `status` records what it answers in the symbol's health, if there is one
  unfoldable pub status : F → String → FeedHealthTracker F → FeedStatus × FeedHealthTracker F
  unfolding compute
  status now symbol t =
      let answer = compute now t.policy (get symbol t.symbols) in
      (
        answer,
        elim (get symbol t.symbols) [
          | none ↦ t
          | some r ↦ record t {
            symbols = set symbol (record r { last_status = some answer }) t.symbols;
          }
        ],
      )

  unfoldable pub note : F → Observation F → SymbolHealth F → SymbolHealth F
  note now (quote s) r = record r {
    last_success_mono = some now;
    consecutive_failures = 0;
    market_timestamp = some s.market_timestamp;
    received_timestamp = some s.received_timestamp;
  }
  note now failure r = record r { consecutive_failures = r.consecutive_failures + 1 }
  note now nothing r = r

  -- `observe`; the record is made by `setdefault` where the symbol has none
  unfoldable pub observe :
      F → String → Observation F → FeedHealthTracker F → FeedStatus × FeedHealthTracker F
  unfolding note status
  observe now symbol o t =
      let r = or_else (get symbol t.symbols) new_health in
      status now symbol (record t { symbols = set symbol (note now o r) t.symbols })

  -- `keep_alive` of the symbol's record
  abbrev pub kept_alive : F → SymbolHealth F → SymbolHealth F
  kept_alive now r = elim r.last_success_mono [
    | none ↦ r
    | some last ↦
        if ltb 0 r.consecutive_failures then r else record r { last_success_mono = some now }
  ]

  unfoldable pub keep_alive : F → String → FeedHealthTracker F → FeedHealthTracker F
  keep_alive now symbol t = elim (get symbol t.symbols) [
    | none ↦ t
    | some r ↦ record t { symbols = set symbol (kept_alive now r) t.symbols }
  ]

  unfoldable pub consecutive_failures : String → FeedHealthTracker F → ℕ
  consecutive_failures symbol t = elim (get symbol t.symbols) [
    | none ↦ 0
    | some r ↦ r.consecutive_failures
  ]

  -- the loop of `max` over the statuses, from the first of them
  unfoldable pub worst_from :
      F → FeedStatus → List String → FeedHealthTracker F → FeedStatus × FeedHealthTracker F
  unfolding status
  worst_from now a [] t = (a, t)
  worst_from now a (symbol ∷ symbols) t =
      let (b, t') = status now symbol t in worst_from now (worse a b) symbols t'

  unfoldable pub aggregate_status :
      F → List String → FeedHealthTracker F → FeedStatus × FeedHealthTracker F
  unfolding status worst_from
  aggregate_status now [] t = (FeedStatus.disconnected, t)
  aggregate_status now (symbol ∷ symbols) t =
      let (a, t') = status now symbol t in worst_from now a symbols t'

  unfoldable pub feed_latency : String → FeedHealthTracker F → Option F
  feed_latency symbol t = elim (get symbol t.symbols) [
    | none ↦ none
    | some r ↦ stamp_gap r.received_timestamp r.market_timestamp
  ]

  unfoldable pub last_update_age : F → String → FeedHealthTracker F → Option F
  last_update_age now symbol t = elim (get symbol t.symbols) [
    | none ↦ none
    | some r ↦ elim r.last_success_mono [ none ↦ none | some last ↦ some (sub now last) ]
  ]
