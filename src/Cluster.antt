-- ===== src/Cluster.antt =====
-- src/market_sentinel/signals/cluster.py: the lineage of an event, the episodes into which the events of
-- a lineage are split, and the family of an episode.
pub mod Sorting
pub mod Episodes
use market_sentinel.Base.{
  ℕ, String, Bool, true, false, not, ◌||◌, ◌&&◌, Option, none, some, List, [], ◌∷◌, ◌++◌, filter,
  any, if◌then◌else◌,
}
use market_sentinel.Base.Eq.{string_eq, ◌==◌}
use market_sentinel.Base.Float.{Float, le, lt, sub, dec}
use market_sentinel.Domain.{EventType, EventDirection, direction_eq, MarketEvent, Lineage, Family}
use text.Mathlib.Text.{is_le}
use Prim.Native.String.{compare}

module _ {F : Type 0} ⦃f : Float F⦄ where
  abbrev pub cluster_lookback_s : F
  cluster_lookback_s = dec 900 1

unfoldable pub lineage_of : EventType → Lineage
lineage_of EventType.vwap_cross = Lineage.vwap
lineage_of _ = Lineage.tape

-- the built-in order of two strings
abbrev pub str_le : String → String → Bool
str_le a b = is_le (compare a b)

module _ {F : Type 0} ⦃f : Float F⦄ where
  -- the order of the sort keys `(item.market_timestamp, item.id)`: tuples compare by their first parts
  -- that differ
  abbrev pub key_le : MarketEvent F → MarketEvent F → Bool
  key_le a b =
      lt a.market_timestamp b.market_timestamp
      || (not (lt b.market_timestamp a.market_timestamp) && str_le a.id b.id)

  -- `sorted` by that key is stable; here it inserts each item before the first later one
  unfoldable pub insert_by_key : MarketEvent F → List (MarketEvent F) → List (MarketEvent F)
  insert_by_key x [] = x ∷ []
  insert_by_key x (y ∷ ys) =
      let rest = insert_by_key x ys in if key_le x y then x ∷ (y ∷ ys) else y ∷ rest

  unfoldable pub sort_by_key : List (MarketEvent F) → List (MarketEvent F)
  unfolding insert_by_key
  sort_by_key [] = []
  sort_by_key (x ∷ xs) = insert_by_key x (sort_by_key xs)

module _ {F : Type 0} where
  abbrev pub going : EventDirection → List (MarketEvent F) → List (MarketEvent F)
  going d = filter λ i. i.direction == d

  -- `nones if none_target is d else []`
  abbrev pub nones_for :
      EventDirection → EventDirection → List (MarketEvent F) → List (MarketEvent F)
  nones_for d none_target recent = if none_target == d then going EventDirection.flat recent else []

abbrev pub Episode : Type 0 → Type 0
Episode F = EventDirection × List (MarketEvent F)

module _ {F : Type 0} ⦃f : Float F⦄ where
  -- one `episodes.append`, where there are events
  abbrev pub episode_of : EventDirection → List (MarketEvent F) → List (Episode F)
  episode_of d [] = []
  episode_of d (e ∷ es) = (d, sort_by_key (e ∷ es)) ∷ []

  unfoldable pub partition_lineage_episodes :
      List (MarketEvent F) → EventDirection → List (Episode F)
  unfolding sort_by_key
  partition_lineage_episodes recent none_target =
      episode_of EventDirection.up
        (nones_for EventDirection.up none_target recent ++ going EventDirection.up recent)
      ++ (episode_of EventDirection.down
            (nones_for EventDirection.down none_target recent ++ going EventDirection.down recent)
          ++ episode_of EventDirection.flat (nones_for EventDirection.flat none_target recent))

-- A set of the directions UP and DOWN, by its members.
module _ {F : Type 0} where
  abbrev pub has_direction : EventDirection → List (MarketEvent F) → Bool
  has_direction d = any λ i. i.direction == d

-- the answer for a set of UP and DOWN that holds just one, and `other` for the empty set
abbrev pub single : Bool → Bool → EventDirection → EventDirection
single true true other = EventDirection.flat
single true false other = EventDirection.up
single false true other = EventDirection.down
single false false other = other

module _ {F : Type 0} where
  -- `live_up` and `live_down`: whether the directions UP and DOWN are in `live_directions`
  unfoldable pub resolve_none_target :
      List (MarketEvent F) → List (MarketEvent F) → Bool → Bool → EventDirection
  resolve_none_target batch recent live_up live_down =
      single (has_direction EventDirection.up batch) (has_direction EventDirection.down batch) (
        single (has_direction EventDirection.up recent || live_up)
          (has_direction EventDirection.down recent || live_down) EventDirection.flat)

abbrev pub is_volume : EventType → Bool
is_volume EventType.volume_spike = true
is_volume EventType.price_volume_expansion = true
is_volume _ = false

abbrev pub is_move : EventType → Bool
is_move EventType.rapid_move = true
is_move EventType.price_volume_expansion = true
is_move _ = false

abbrev pub is_high : EventType → Bool
is_high EventType.day_high_breakout = true
is_high _ = false

abbrev pub is_low : EventType → Bool
is_low EventType.day_low_breakdown = true
is_low _ = false

abbrev pub is_cross : EventType → Bool
is_cross EventType.vwap_cross = true
is_cross _ = false

module _ {F : Type 0} where
  -- whether a type of the kind is among the events' types
  abbrev pub has_type : (EventType → Bool) → List (MarketEvent F) → Bool
  has_type kind = any λ i. kind i.type

  unfoldable pub classify_family : List (MarketEvent F) → Family
  classify_family events =
      if has_type is_volume events && has_type is_move events
      then Family.price_volume
      else if has_type is_high events
      then Family.breakout
      else if has_type is_low events
      then Family.breakdown
      else if has_type is_volume events
      then Family.volume
      else if has_type is_move events
      then Family.move
      else if has_type is_cross events
      then Family.vwap
      else Family.other

abbrev pub same_lineage : Lineage → EventType → Bool
same_lineage Lineage.vwap t = is_cross t
same_lineage Lineage.tape t = not (is_cross t)

module _ {F : Type 0} ⦃f : Float F⦄ where
  -- `events_in_lookback`
  unfoldable pub events_in_lookback : List (MarketEvent F) → F → F → List (MarketEvent F)
  events_in_lookback accepted now_market_ts lookback_s =
      let start = sub now_market_ts lookback_s in
      filter (λ i. le start i.market_timestamp && le i.market_timestamp now_market_ts) accepted

  -- `_compatible_members`
  unfoldable pub compatible_members : MarketEvent F → List (MarketEvent F) → List (MarketEvent F)
  unfolding sort_by_key
  compatible_members event members = sort_by_key (
      if event.direction == EventDirection.flat
      then members
      else filter (λ i. i.direction == event.direction || i.direction == EventDirection.flat)
          members)

  unfoldable pub cluster_members : MarketEvent F → List (MarketEvent F) → List (MarketEvent F)
  unfolding compatible_members lineage_of
  cluster_members event recent =
      compatible_members event (filter (λ i. same_lineage (lineage_of event.type) i.type) recent)
