-- ===== src/RingBuffer.antt =====
-- src/market_sentinel/market_data/ring_buffer.py and buffers.py: the recent snapshots of each symbol,
-- ordered by market time. `bisect` is the standard library's; on a sorted list its index is the number
-- of leading elements that pass the test, which is how it is written here.
pub mod Place
pub mod Bounds
pub mod Queries
use market_sentinel.Base.{
  ℕ, zero, suc, ◌-◌, String, Bool, true, false, not, ◌&&◌, Option, none, some, List, [], ◌∷◌, map,
  ltb, eqb, if◌then◌else◌, length, drop, last?, filter,
}
use market_sentinel.Base.Eq.{string_eq}
use market_sentinel.Base.Dict.{Dict, get, set}
use market_sentinel.Base.Float.{Float, le, lt, eq, sub, num}
use market_sentinel.Domain.{MarketSnapshot}

pub record RingBuffer (F : Type 0) : Type 0 where
  pub retention_s : F
  pub max_size : ℕ
  pub items : List (MarketSnapshot F)

-- list indexing and slicing of the language
module _ {A : Type 0} where
  abbrev pub get_elem? : List A → ℕ → Option A
  get_elem? [] i = none
  get_elem? (x ∷ xs) zero = some x
  get_elem? (x ∷ xs) (suc i) = get_elem? xs i

  -- `xs[i] = v`
  abbrev pub set_elem : List A → ℕ → A → List A
  set_elem [] i v = []
  set_elem (x ∷ xs) zero v = v ∷ xs
  set_elem (x ∷ xs) (suc i) v = x ∷ set_elem xs i v

  -- `xs.insert(i, v)`
  abbrev pub insert_elem : List A → ℕ → A → List A
  insert_elem xs zero v = v ∷ xs
  insert_elem [] (suc i) v = v ∷ []
  insert_elem (x ∷ xs) (suc i) v = x ∷ insert_elem xs i v

module _ {F : Type 0} ⦃f : Float F⦄ where
  abbrev pub timestamps : List (MarketSnapshot F) → List F
  timestamps = map (λ (i : MarketSnapshot F). i.market_timestamp)

  unfoldable pub bisect_left : List F → F → ℕ
  bisect_left [] t = 0
  bisect_left (a ∷ rs) t = let rest = bisect_left rs t in if lt a t then suc rest else 0

  unfoldable pub bisect_right : List F → F → ℕ
  bisect_right [] t = 0
  bisect_right (a ∷ rs) t = let rest = bisect_right rs t in if lt t a then 0 else suc rest

  -- `__init__`, with `none` for its `ValueError`
  unfoldable pub new : F → ℕ → Option (RingBuffer F)
  new retention_s max_size =
      if le retention_s (num 0)
      then none
      else if eqb max_size 0
      then none
      else some (record { retention_s = retention_s; max_size = max_size; items = [] })

  unfoldable pub latest : RingBuffer F → Option (MarketSnapshot F)
  latest b = last? b.items

  -- the `while` loop of `_evict`
  unfoldable pub drop_older : F → List (MarketSnapshot F) → List (MarketSnapshot F)
  drop_older cutoff [] = []
  drop_older cutoff (x ∷ xs) =
      let rest = drop_older cutoff xs in if lt x.market_timestamp cutoff then rest else x ∷ xs

  -- `_evict` with the newest item; `del items[:overflow]` is a `drop`, of nothing where `overflow` is
  -- not positive
  unfoldable pub evict_from : MarketSnapshot F → RingBuffer F → RingBuffer F
  unfolding drop_older
  evict_from newest b =
      let kept = drop_older (sub newest.market_timestamp b.retention_s) b.items in
      record b { items = drop (length kept - b.max_size) kept }

  -- `_evict`, which runs on a list that is not empty
  unfoldable pub evict : RingBuffer F → RingBuffer F
  unfolding evict_from
  evict b = elim (last? b.items) [ none ↦ b | some newest ↦ evict_from newest b ]

  -- whether the item at the index, if there is one, has the snapshot's timestamp
  abbrev pub same_time : Option (MarketSnapshot F) → MarketSnapshot F → Bool
  same_time none s = false
  same_time (some i) s = eq i.market_timestamp s.market_timestamp

  -- what `append` does to the list before it evicts
  unfoldable pub insert_by_time :
      MarketSnapshot F → List (MarketSnapshot F) → List (MarketSnapshot F)
  unfolding bisect_left
  insert_by_time s items =
      let index = bisect_left (timestamps items) s.market_timestamp in
      if same_time (get_elem? items index) s
      then set_elem items index s
      else insert_elem items index s

  unfoldable pub append : MarketSnapshot F → RingBuffer F → RingBuffer F
  unfolding insert_by_time evict
  append s b = evict (record b { items = insert_by_time s b.items })

  unfoldable pub since : F → RingBuffer F → List (MarketSnapshot F)
  since timestamp b = filter (λ i. le timestamp i.market_timestamp) b.items

  unfoldable pub window : F → RingBuffer F → List (MarketSnapshot F)
  unfolding latest since
  window duration_s b = elim (latest b) [
    | none ↦ []
    | some newest ↦ since (sub newest.market_timestamp duration_s) b
  ]

  -- `self._items[index]` with `index` one below the bisection point
  abbrev pub before_index : List (MarketSnapshot F) → ℕ → Option (MarketSnapshot F)
  before_index items zero = none
  before_index items (suc i) = get_elem? items i

  unfoldable pub at_or_before : F → RingBuffer F → Option (MarketSnapshot F)
  unfolding bisect_right
  at_or_before timestamp b = before_index b.items (bisect_right (timestamps b.items) timestamp)
