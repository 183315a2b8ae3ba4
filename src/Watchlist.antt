-- ===== src/Watchlist.antt =====
-- src/market_sentinel/watchlist/watchlist.py: the symbols under watch, in insertion order, at most
-- `limit` of them, written to a file after each change. How a write goes is an argument, `Disk`.
pub mod Stored
pub mod Limit
pub mod Replace
pub mod History
pub mod Failures
pub mod Saved
use market_sentinel.Base.{
  ℕ, String, Bool, true, false, ◌||◌, not, Option, none, some, List, [], ◌∷◌, leb, ltb,
  if◌then◌else◌, length, filter, map, is_some,
}
use market_sentinel.Base.Eq.{string_eq}
use market_sentinel.Base.Dict.{Dict, get, set, pop, contains, values}
use market_sentinel.Domain.{WatchItem}
use market_sentinel.Watchlist.Stored.{Value, Python, payload, read_payload}

-- `WatchlistFullError`, `WatchlistSymbolError` (an unknown or a duplicate symbol)
pub data WatchlistError : Type 0 where
  full unknown duplicate : WatchlistError

-- What a method returns or raises; the object comes back beside it. `broken` is the `OSError` of a write
-- that fails.
pub data Outcome (A : Type 0) : Type 0 where
  ok : A → Outcome A
  raised : WatchlistError → Outcome A
  broken : Outcome A

-- what stands in a file: the value that `json.loads` reads there, or a text for which it raises
pub data Content : Type 0 where
  garbled : Content
  json : Value → Content

-- How `mkdir` and `write_text` go: the text is written, or one of them raises and leaves what it leaves at
-- the path, such as nothing, the old text, or a text that was cut short.
pub data Disk : Type 0 where
  written : Disk
  fails : Option Content → Disk

-- `file` is what stands at `path`, if anything
pub record Watchlist : Type 0 where
  pub limit : ℕ
  pub persist : Bool
  pub file : Option Content
  pub items : Dict String WatchItem

abbrev pub Method : Type 0 → Type 0
Method A = Disk → Watchlist → Outcome A × Watchlist

abbrev pub write : Method (Unit {0})
write written w = (ok tt, record w { file = some (json (payload (values w.items))) })
write (fails left) w = (broken, record w { file = left })

-- `_save`
unfoldable pub save : Method (Unit {0})
save disk w = if w.persist then write disk w else (ok tt, w)

-- what a method returns after `_save`, if that does not raise
abbrev pub then_return : {A : Type 0} → A → Outcome (Unit {0}) × Watchlist → Outcome A × Watchlist
then_return a (ok u, w) = (ok a, w)
then_return a (raised e, w) = (raised e, w)
then_return a (broken, w) = (broken, w)

-- the items of what stands at the path; nothing is read where there is no file
unfoldable pub read_file : Python → Option Content → Option (Dict String WatchItem)
unfolding read_payload
read_file py none = some []
read_file py (some garbled) = none
read_file py (some (json v)) = read_payload py v

-- `_load` of a new watchlist
unfoldable pub load : Python → Watchlist → Option Watchlist
unfolding read_file
load py w = elim (read_file py w.file) [ none ↦ none | some d ↦ some (record w { items = d }) ]

-- `__init__`, with a path wherever `persist` is set; `none` where reading the file raises
unfoldable pub init : Python → ℕ → Bool → Option Content → Option Watchlist
unfolding load
init py limit persist file =
    let w : Watchlist = record { limit = limit; persist = persist; file = file; items = [] } in
    if persist then load py w else some w

-- `add`, once `get` has answered
abbrev add_new : String → Option WatchItem → Method WatchItem
add_new symbol (some existing) disk w = (ok existing, w)
add_new symbol none disk w =
    if leb w.limit (length w.items)
    then (raised full, w)
    else let item : WatchItem = record { symbol = symbol; enabled = true } in
      then_return item (save disk (record w { items = set symbol item w.items }))

unfoldable pub add : String → Method WatchItem
unfolding save
add symbol disk w = add_new symbol (get symbol w.items) disk w

abbrev remove_found : String → Option WatchItem → Method (Unit {0})
remove_found symbol none disk w = (raised unknown, w)
remove_found symbol (some item) disk w = save disk (record w { items = pop symbol w.items })

unfoldable pub remove : String → Method (Unit {0})
unfolding save
remove symbol disk w = remove_found symbol (get symbol w.items) disk w

-- the loop of `replace`: `none` is the duplicate symbol
unfoldable pub collect : List WatchItem → Dict String WatchItem → Option (Dict String WatchItem)
collect [] seen = some seen
collect (item ∷ items) seen =
    let rest = collect items (set item.symbol item seen) in
    if contains item.symbol seen then none else rest

abbrev replace_checked : Option (Dict String WatchItem) → Method (Unit {0})
replace_checked none disk w = (raised duplicate, w)
replace_checked (some seen) disk w =
    if ltb w.limit (length seen) then (raised full, w) else save disk (record w { items = seen })

unfoldable pub replace : List WatchItem → Method (Unit {0})
unfolding save collect
replace items disk w = replace_checked (collect items []) disk w

-- `list`
unfoldable pub list : Watchlist → List WatchItem
list w = values w.items

unfoldable pub enabled_symbols : Watchlist → List String
enabled_symbols w = map (λ (i : WatchItem). i.symbol) (filter (λ i. i.enabled) (values w.items))

abbrev set_found : String → Bool → Option WatchItem → Method WatchItem
set_found symbol enabled none disk w = (raised unknown, w)
set_found symbol enabled (some item) disk w =
    let updated : WatchItem = record { symbol = item.symbol; enabled = enabled } in
    then_return updated (save disk (record w { items = set symbol updated w.items }))

-- `_set_enabled`
unfoldable pub set_enabled : String → Bool → Method WatchItem
unfolding save
set_enabled symbol enabled disk w = set_found symbol enabled (get symbol w.items) disk w

unfoldable pub enable : String → Method WatchItem
unfolding set_enabled
enable symbol = set_enabled symbol true

unfoldable pub disable : String → Method WatchItem
unfolding set_enabled
disable symbol = set_enabled symbol false
