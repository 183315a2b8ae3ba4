-- ===== src/Watchlist/Replace.antt =====
-- What `replace` accepts, and what it leaves.
use mathlib.Core.List.{append_assoc}
use market_sentinel.Base.{
  String, ◌≡◌, ◌≢◌, refl, ap, ◌∙◌, Bool, true, false, not, ◌&&◌, ◌||◌, Option, none, some, List, [],
  ◌∷◌, ◌++◌, arith, ltb, length, if◌then◌else◌, Bool-cases, inl, inr,
}
use market_sentinel.Base.Eq.{string_eq, ◌==◌}
use market_sentinel.Base.Dict.{Dict, get, set, contains, values}
use market_sentinel.Base.Dict.Unique.{set-eq-append, contains-set}
use market_sentinel.Domain.{WatchItem}
use market_sentinel.Watchlist.{
  Watchlist, Disk, written, fails, broken, ok, raised, full, duplicate, save, replace, collect,
  list,
}

-- the write succeeds
abbrev pub is_written : Disk → Bool
is_written written = true
is_written (fails left) = false

-- some item has the symbol
abbrev pub mentions : String → List WatchItem → Bool
mentions s [] = false
mentions s (i ∷ items) = s == i.symbol || mentions s items

-- no symbol stands twice
abbrev pub distinct : List WatchItem → Bool
distinct [] = true
distinct (i ∷ items) = not (mentions i.symbol items) && distinct items

abbrev pairs : List WatchItem → Dict String WatchItem
pairs [] = []
pairs (i ∷ items) = (i.symbol, i) ∷ pairs items

abbrev clash : Dict String WatchItem → List WatchItem → Bool
clash seen [] = false
clash seen (i ∷ items) = contains i.symbol seen || clash seen items

clash-set :
    (k : String) (v : WatchItem) (seen : Dict String WatchItem) (items : List WatchItem)
    → clash (set k v seen) items ≡ (mentions k items || clash seen items)
clash-set k v seen [] = refl
clash-set k v seen (i ∷ items) =
    ground (arith, contains-set k i.symbol v seen, clash-set k v seen items)

clash-empty : (items : List WatchItem) → clash [] items ≡ false
unfolding get
clash-empty [] = refl
clash-empty (i ∷ items) = clash-empty items

values-pairs : (items : List WatchItem) → values (pairs items) ≡ items
values-pairs [] = refl
values-pairs (i ∷ items) = ap (λ x. i ∷ x) (values-pairs items)

length-pairs : (items : List WatchItem) → length (pairs items) ≡ length items
length-pairs [] = refl
length-pairs (i ∷ items) = omega (arith, length-pairs items)

abbrev accepted : List WatchItem → Dict String WatchItem → Option (Dict String WatchItem)
accepted items seen =
    if distinct items && not (clash seen items) then some (seen ++ pairs items) else none

collect_lem :
    (items : List WatchItem) (seen : Dict String WatchItem)
    → collect items seen ≡ accepted items seen
unfolding collect
collect_lem [] seen = ground (arith, mathlib.Core.List.append-nil seen)
collect_lem (i ∷ items) seen = elim (Bool-cases (contains i.symbol seen)) [
  | inl h ↦ rw h (ground arith)
  | inr h ↦ rw h (
      collect_lem items (set i.symbol i seen)
      ∙ ground (
        arith,
        clash-set i.symbol i seen items,
        set-eq-append i.symbol i seen h,
        append_assoc seen ((i.symbol, i) ∷ []) (pairs items),
      ))
]

-- `replace` refuses a list in which a symbol stands twice, then a list longer than the limit, and
-- otherwise succeeds, unless the watchlist persists and its write fails. When it succeeds the watchlist
-- lists just the given items, in their order.
pub replace_lem :
    (items : List WatchItem) (disk : Disk) (w : Watchlist)
    → ((replace items disk w).0 ≡ (
        if not (distinct items)
        then raised duplicate
        else if ltb w.limit (length items)
        then raised full
        else if w.persist && not (is_written disk)
        then broken
        else ok tt))
      × ((replace items disk w).0 ≡ ok tt → list (replace items disk w).1 ≡ items)
unfolding replace list save
replace_lem items written w =
    let e = collect_lem items [] in
    ground (arith, e, clash-empty items, values-pairs items, length-pairs items)
replace_lem items (fails left) w =
    let e = collect_lem items [] in
    ground (arith, e, clash-empty items, values-pairs items, length-pairs items)

-- a write that succeeds raises nothing
pub replace-not_broken :
    (items : List WatchItem) (w : Watchlist) → (replace items written w).0 ≢ broken
replace-not_broken items w h = let e = (replace_lem items written w).0 in ground arith
