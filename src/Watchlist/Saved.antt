-- ===== src/Watchlist/Saved.antt =====
-- What `_save` wrote, `_load` reads back: the file of a watchlist and its items.
use market_sentinel.Base.{
  String, ◌≡◌, refl, sym, ap, ◌∙◌, true, some, [], ◌∷◌, arith, Bool-cases, inl, inr,
}
use market_sentinel.Base.Eq.{string_eq}
use market_sentinel.Base.Dict.{Dict, get, set, pop, values}
use market_sentinel.Base.Dict.Unique.{Unique, update, update-empty}
use market_sentinel.Domain.{WatchItem}
use market_sentinel.Watchlist.Stored.{
  Python, raw_of, raws, payload, read_raw, load_items, items_in, read_payload, lookup,
}
use market_sentinel.Watchlist.{Watchlist, written, read_file, save}

-- each item stands under its own symbol
abbrev pub IsKeyed : Dict String WatchItem → Type 0
IsKeyed [] = Unit
IsKeyed ((k, i) ∷ d) = (k ≡ i.symbol) × IsKeyed d

pub IsKeyed-set :
    (k : String) (i : WatchItem) (d : Dict String WatchItem)
    → k ≡ i.symbol
    → IsKeyed d
    → IsKeyed (set k i d)
unfolding set
IsKeyed-set k i [] e h = (e, tt)
IsKeyed-set k i ((j, w) ∷ d) e (a, h) = ground (arith, string_eq.beq_iff j k, IsKeyed-set k i d e h)

pub IsKeyed-pop : (k : String) (d : Dict String WatchItem) → IsKeyed d → IsKeyed (pop k d)
unfolding pop
IsKeyed-pop k [] h = tt
IsKeyed-pop k ((j, w) ∷ d) (a, h) = ground (arith, IsKeyed-pop k d h)

pub IsKeyed-get :
    (k : String) (d : Dict String WatchItem) (i : WatchItem)
    → IsKeyed d
    → get k d ≡ some i
    → k ≡ i.symbol
unfolding get
IsKeyed-get k [] i h e = cc
IsKeyed-get k ((j, w) ∷ d) i (a, h) e = ground (arith, string_eq.beq_iff j k, IsKeyed-get k d i h)

load_items-raws :
    (py : Python) (d acc : Dict String WatchItem)
    → IsKeyed d
    → load_items py (raws (values d)) acc ≡ some (update acc d)
unfolding load_items raws update read_raw raw_of lookup
load_items-raws py [] acc h = refl
load_items-raws py ((k, i) ∷ d) acc (e, h) =
    load_items-raws py d (set i.symbol i acc) h ∙ ap (λ x. some (update (set x i acc) d)) (sym e)

-- `_load` makes of what `_save` wrote the items that were written
pub read_payload-payload :
    (py : Python) (d : Dict String WatchItem)
    → Unique d
    → IsKeyed d
    → read_payload py (payload (values d)) ≡ some d
unfolding read_payload payload items_in lookup
read_payload-payload py d u k = load_items-raws py d [] k ∙ ap some (update-empty d u)

-- the file of a watchlist that persists is read as its items
abbrev pub IsDurable : Watchlist → Type 0
IsDurable w = (py : Python) → w.persist ≡ true → read_file py w.file ≡ some w.items

pub save-IsDurable :
    (w : Watchlist) → Unique w.items → IsKeyed w.items → IsDurable (save written w).1
unfolding save read_file
save-IsDurable w u k py = elim (Bool-cases w.persist) [
  | inl on ↦ rw on λ _. read_payload-payload py w.items u k
  | inr off ↦ rw off λ h. cc
]
