-- ===== src/Watchlist/History.antt =====
-- Calls of the methods of a watchlist, in any order, what they raise, and a restart from the file.
use market_sentinel.Base.{
  ℕ, String, ◌≡◌, refl, sym, subst, ◌∙◌, Bool, true, false, Option, none, some, List, [], ◌∷◌,
  arith, ap, All,
}
use market_sentinel.Base.Eq.{string_eq}
use market_sentinel.Domain.{WatchItem}
use market_sentinel.Watchlist.Stored.{Python}
use market_sentinel.Watchlist.{
  Watchlist, WatchlistError, Outcome, ok, raised, broken, Disk, written, fails, save, load,
  read_file, init, add, remove, replace, set_enabled, enable, disable, list,
}
use market_sentinel.Watchlist.Limit.{
  IsValid, IsFormed, IsValid-IsFormed, IsFormed-IsValid, add-IsFormed, remove-IsFormed,
  replace-IsFormed, set_enabled-IsFormed,
}

pub data Call : Type 0 where
  add_call remove_call enable_call disable_call : String → Call
  replace_call : List WatchItem → Call

-- what a call can raise: an error of the watchlist, or that of a write that fails
pub data Exception : Type 0 where
  refused : WatchlistError → Exception
  os_error : Exception

abbrev pub exception : {A : Type 0} → Outcome A → Option Exception
exception (ok a) = none
exception (raised x) = some (refused x)
exception broken = some os_error

-- the object after a call, and what the call raised
unfoldable pub after : Disk → Call → Watchlist → Watchlist
after disk (add_call s) w = (add s disk w).1
after disk (remove_call s) w = (remove s disk w).1
after disk (enable_call s) w = (enable s disk w).1
after disk (disable_call s) w = (disable s disk w).1
after disk (replace_call items) w = (replace items disk w).1

unfoldable pub raises : Disk → Call → Watchlist → Option Exception
raises disk (add_call s) w = exception (add s disk w).0
raises disk (remove_call s) w = exception (remove s disk w).0
raises disk (enable_call s) w = exception (enable s disk w).0
raises disk (disable_call s) w = exception (disable s disk w).0
raises disk (replace_call items) w = exception (replace items disk w).0

-- calls, each with how its write goes
unfoldable pub after_all : List (Disk × Call) → Watchlist → Watchlist
after_all [] w = w
after_all ((disk, c) ∷ cs) w = after_all cs (after disk c w)

-- every write succeeds
abbrev pub AllWritten : List (Disk × Call) → Type 0
AllWritten = All (λ p. p.0 ≡ written)

after-IsFormed :
    (C : Type 0) (disk : Disk) (c : Call) (w : Watchlist)
    → (C → disk ≡ written)
    → IsFormed C w
    → IsFormed C (after disk c w)
unfolding after enable disable
after-IsFormed C disk (add_call s) w works v = add-IsFormed C disk works s w v
after-IsFormed C disk (remove_call s) w works v = remove-IsFormed C disk works s w v
after-IsFormed C disk (enable_call s) w works v = set_enabled-IsFormed C disk works s true w v
after-IsFormed C disk (disable_call s) w works v = set_enabled-IsFormed C disk works s false w v
after-IsFormed C disk (replace_call items) w works v = replace-IsFormed C disk works items w v

-- Whatever writes fail, the items stay within the limit, under their own symbols, and no symbol is there
-- twice; the file holds them where every write succeeds.
pub after_all-IsFormed :
    (C : Type 0) (cs : List (Disk × Call)) (w : Watchlist)
    → (C → AllWritten cs)
    → IsFormed C w
    → IsFormed C (after_all cs w)
unfolding after_all
after_all-IsFormed C [] w works v = v
after_all-IsFormed C ((disk, c) ∷ cs) w works v =
    after_all-IsFormed C cs (after disk c w) (λ h. (works h).1)
      (after-IsFormed C disk c w (λ h. (works h).0) v)

-- From a valid watchlist, any calls of `add`, `remove`, `replace`, `enable` and `disable`, whether they
-- return or raise a `WatchlistError`, and whose writes succeed, leave a valid one: at most `limit` items,
-- no symbol twice, each item under its own symbol, and, if the watchlist persists, a file from which
-- `_load` reads the items.
pub after_all-IsValid :
    (cs : List (Disk × Call)) (w : Watchlist) → AllWritten cs → IsValid w → IsValid (after_all cs w)
after_all-IsValid cs w works v =
    IsFormed-IsValid (Unit {0}) (after_all cs w) tt
      (after_all-IsFormed (Unit {0}) cs w (λ _. works) (IsValid-IsFormed (Unit {0}) w v))

pub IsValid-init :
    (limit : ℕ) (persist : Bool)
    → IsValid (record { limit = limit; persist = persist; file = none; items = [] })
unfolding read_file
IsValid-init limit persist = record {
  bounded = omega arith;
  unique = tt;
  keyed = tt;
  durable = λ py _. refl;
}

-- the limit and the choice to persist are never changed
fixed-after :
    (disk : Disk) (c : Call) (w : Watchlist)
    → ((after disk c w).persist ≡ w.persist) × ((after disk c w).limit ≡ w.limit)
unfolding after enable disable add remove replace set_enabled save
fixed-after written (add_call s) w = ground arith
fixed-after written (remove_call s) w = ground arith
fixed-after written (enable_call s) w = ground arith
fixed-after written (disable_call s) w = ground arith
fixed-after written (replace_call items) w = ground arith
fixed-after (fails left) (add_call s) w = ground arith
fixed-after (fails left) (remove_call s) w = ground arith
fixed-after (fails left) (enable_call s) w = ground arith
fixed-after (fails left) (disable_call s) w = ground arith
fixed-after (fails left) (replace_call items) w = ground arith

fixed-after_all :
    (cs : List (Disk × Call)) (w : Watchlist)
    → ((after_all cs w).persist ≡ w.persist) × ((after_all cs w).limit ≡ w.limit)
unfolding after_all
fixed-after_all [] w = (refl, refl)
fixed-after_all ((disk, c) ∷ cs) w =
    let (p, l) = fixed-after_all cs (after disk c w) in
    let (p', l') = fixed-after disk c w in (p ∙ p', l ∙ l')

reload :
    (py : Python) (w : Watchlist)
    → IsValid w
    → w.persist ≡ true
    → init py w.limit true w.file ≡ some w
unfolding init load
reload py w v p =
    ap {B = Option Watchlist}
      (λ o. elim o [ none ↦ none | some d ↦ some (record w { persist = true; items = d }) ])
      (v.durable py p)
    ∙ ap (λ b. some (record w { persist = b })) (sym p)

-- A restart forgets nothing: after any calls with successful writes on a valid watchlist that persists,
-- `__init__` with the same limit reads the file that is left without raising, and makes a watchlist that
-- lists the same items, each with its flag, in the same order. The file stands for the value that
-- `json.dumps` was given.
pub list-restart :
    (py : Python) (cs : List (Disk × Call)) (w : Watchlist)
    → AllWritten cs
    → IsValid w
    → w.persist ≡ true
    → (u : Watchlist) × (init py w.limit true (after_all cs w).file ≡ some u)
      × (list u ≡ list (after_all cs w))
list-restart py cs w works v p =
    let (kept, same) = fixed-after_all cs w in
    (
      after_all cs w,
      subst (λ l. init py l true (after_all cs w).file ≡ some (after_all cs w)) same
          (reload py (after_all cs w) (after_all-IsValid cs w works v) (kept ∙ p)),
      refl,
    )
