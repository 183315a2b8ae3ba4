-- ===== src/Watchlist/Stored.antt =====
-- src/market_sentinel/watchlist/watchlist.py: the JSON value that `_save` writes, and how `_load` reads
-- one. `json.dumps` and `json.loads` stand between the value and the text of the file.
use market_sentinel.Base.{
  String, Bool, true, false, not, Option, none, some, List, [], ◌∷◌, if◌then◌else◌,
}
use market_sentinel.Base.Eq.{string_eq, ◌==◌}
use market_sentinel.Base.Dict.{Dict, set}
use market_sentinel.Domain.{WatchItem}

mutual
  -- what `json.loads` answers; a number is kept as its literal
  pub data Value : Type 0 where
    null : Value
    flag : Bool → Value
    number : String → Value
    text : String → Value
    array : Values → Value
    object : Members → Value

  pub data Values : Type 0 where
    no_values : Values
    value_then : Value → Values → Values

  -- a `dict`, in the order of its keys
  pub data Members : Type 0 where
    no_members : Members
    member : String → Value → Members → Members

-- `str` of a value that is not a string, and `bool` of a number
pub record Python : Type 0 where
  pub str : Value → String
  pub nonzero : String → Bool

-- `d.get(key)`, and the keys that a loop over a `dict` meets
unfoldable pub lookup : String → Members → Option Value
lookup key no_members = none
lookup key (member k v ms) = let rest = lookup key ms in if k == key then some v else rest

abbrev pub key_texts : Members → Values
key_texts no_members = no_values
key_texts (member k v ms) = value_then (text k) (key_texts ms)

-- `{"symbol": item.symbol, "enabled": item.enabled}`
unfoldable pub raw_of : WatchItem → Value
raw_of item =
    object (member "symbol" (text item.symbol) (member "enabled" (flag item.enabled) no_members))

unfoldable pub raws : List WatchItem → Values
raws [] = no_values
raws (i ∷ items) = value_then (raw_of i) (raws items)

-- `payload` of `_save`
unfoldable pub payload : List WatchItem → Value
payload items = object (member "items" (array (raws items)) no_members)

-- `bool(value)`, and `str(value)`
abbrev pub truth : Python → Value → Bool
truth py null = false
truth py (flag b) = b
truth py (number n) = py.nonzero n
truth py (text s) = not (s == "")
truth py (array no_values) = false
truth py (array (value_then v vs)) = true
truth py (object no_members) = false
truth py (object (member k v ms)) = true

abbrev pub str_of : Python → Value → String
str_of py (text s) = s
str_of py v = py.str v

-- `bool(raw.get("enabled", True))`
abbrev pub enabled_or_true : Python → Option Value → Bool
enabled_or_true py none = true
enabled_or_true py (some v) = truth py v

-- the item of one `raw`; a raw without `symbol`, or that is not a `dict`, raises
abbrev pub item_from : Python → Option Value → Option Value → Option WatchItem
item_from py none enabled = none
item_from py (some v) enabled =
    some (record { symbol = str_of py v; enabled = enabled_or_true py enabled })

unfoldable pub read_raw : Python → Value → Option WatchItem
unfolding lookup
read_raw py (object ms) = item_from py (lookup "symbol" ms) (lookup "enabled" ms)
read_raw py _ = none

-- the loop of `_load`, where `none` is an exception
unfoldable pub load_items : Python → Values → Dict String WatchItem → Option (Dict String WatchItem)
unfolding read_raw
load_items py no_values items = some items
load_items py (value_then raw rest) items = elim (read_raw py raw) [
  | none ↦ none
  | some i ↦ load_items py rest (set i.symbol i items)
]

-- What the loop runs over, `payload.get("items", [])`, if it can be. A string that is not empty gives
-- strings, and the first of them raises as the whole does.
abbrev pub iterated : Option Value → Option Values
iterated none = some no_values
iterated (some (array vs)) = some vs
iterated (some (object ms)) = some (key_texts ms)
iterated (some (text s)) = some (if s == "" then no_values else value_then (text s) no_values)
iterated (some _) = none

unfoldable pub items_in : Value → Option Values
unfolding lookup
items_in (object ms) = iterated (lookup "items" ms)
items_in _ = none

-- the items that `_load` makes of a whole value
unfoldable pub read_payload : Python → Value → Option (Dict String WatchItem)
unfolding items_in load_items
read_payload py v = elim (items_in v) [ none ↦ none | some vs ↦ load_items py vs [] ]
