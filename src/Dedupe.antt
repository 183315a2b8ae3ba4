-- ===== src/Dedupe.antt =====
-- src/market_sentinel/signals/dedupe.py: repeats of an event are suppressed by key, in market time.
pub mod Spacing
use market_sentinel.Base.{
  ℕ, String, Bool, true, false, Option, none, some, List, [], ◌∷◌, ltb, if◌then◌else◌,
}
use market_sentinel.Base.Eq.{string_eq}
use market_sentinel.Base.Dict.{Dict, get, set}
use market_sentinel.Base.Float.{Float, lt, sub, num}
use market_sentinel.Domain.{MarketEvent}

-- `_Record`
pub record DedupeRecord (F : Type 0) : Type 0 where
  pub market_timestamp : F
  pub severity : ℕ
  pub ttl_s : F

pub record EventDeduper (F : Type 0) : Type 0 where
  pub records : Dict String (DedupeRecord F)

module _ {F : Type 0} where
  abbrev pub record_of : MarketEvent F → DedupeRecord F
  record_of e = record {
    market_timestamp = e.market_timestamp;
    severity = e.severity;
    ttl_s = e.ttl_s;
  }

  -- `_store`
  unfoldable pub store : MarketEvent F → EventDeduper F → EventDeduper F
  store event d = record d { records = set event.dedupe_key (record_of event) d.records }

module _ {F : Type 0} ⦃f : Float F⦄ where
  -- `accept`, once the previous record is looked up
  abbrev pub accept_after :
      MarketEvent F
      → Option (DedupeRecord F)
      → EventDeduper F
      → Option (MarketEvent F) × EventDeduper F
  accept_after event none d = (some event, store event d)
  accept_after event (some previous) d =
      let elapsed = sub event.market_timestamp previous.market_timestamp in
      if lt elapsed (num 0)
      then (none, d)
      else if lt elapsed previous.ttl_s
      then (if ltb previous.severity event.severity then (some event, store event d) else (none, d))
      else (some event, store event d)

  unfoldable pub accept : MarketEvent F → EventDeduper F → Option (MarketEvent F) × EventDeduper F
  unfolding store
  accept event d = accept_after event (get event.dedupe_key d.records) d

  -- the accepted events of a list, and the deduper after it
  unfoldable pub accept_all :
      List (MarketEvent F) → EventDeduper F → List (MarketEvent F) × EventDeduper F
  unfolding accept
  accept_all [] d = ([], d)
  accept_all (event ∷ events) d =
      let (kept, d') = accept event d in
      let (rest, last) = accept_all events d' in
      (elim kept [ none ↦ rest | some e ↦ e ∷ rest ], last)
