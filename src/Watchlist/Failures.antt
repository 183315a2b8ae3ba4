-- ===== src/Watchlist/Failures.antt =====
-- What a call leaves of a watchlist when it raises.
use market_sentinel.Base.{
  String, ◌≡◌, refl, Bool, true, false, Option, none, some, [], arith, leb, ltb, length,
  if◌then◌else◌,
}
use market_sentinel.Base.Eq.{string_eq}
use market_sentinel.Base.Dict.{Dict, get, set, pop}
use market_sentinel.Domain.{WatchItem}
use market_sentinel.Watchlist.{
  Watchlist, WatchlistError, full, unknown, duplicate, Outcome, ok, raised, Content, Disk, written,
  fails, then_return, write, save, add_new, remove_found, replace_checked, set_found, add, remove,
  replace, collect, set_enabled, enable, disable,
}
use market_sentinel.Watchlist.History.{
  Call, add_call, remove_call, enable_call, disable_call, replace_call, Exception, refused,
  os_error, exception, after, raises,
}

-- what an exception leaves of a watchlist, after a method that is called with a disk
abbrev pub LeftBy :
    {A : Type 0} → Exception → Disk → (Disk → Outcome A × Watchlist) → Watchlist → Type 0
LeftBy (refused x) disk method w = (method disk).1 ≡ w
LeftBy os_error disk method w =
    (exception (method written).0 ≡ none)
    × ((method disk).1.items ≡ (method written).1.items)
    × ((left : Option Content) × (disk ≡ fails left) × ((method disk).1.file ≡ left))

abbrev Leaves : {A : Type 0} → Disk → (Disk → Outcome A × Watchlist) → Watchlist → Type 0
Leaves disk method w = (x : Exception) → exception (method disk).0 ≡ some x → LeftBy x disk method w

module _ (disk : Disk) (w : Watchlist) where
  refuses-Leaves : (A : Type 0) (r : WatchlistError) → Leaves {A = A} disk (λ d. (raised r, w)) w
  refuses-Leaves A r (refused x) e = refl
  refuses-Leaves A r os_error e = absurd (ground arith)

  if-Leaves :
      {A : Type 0} (b : Bool) (m n : Disk → Outcome A × Watchlist)
      → Leaves disk m w
      → Leaves disk n w
      → Leaves disk (λ d. if b then m d else n d) w
  if-Leaves true m n p q = p
  if-Leaves false m n p q = q

-- a method that ends with `_save`, by what `_save` does to the object `u`
ends_with_save :
    {A : Type 0} (a : A) (b : Bool) (disk : Disk) (u w : Watchlist)
    → Leaves disk (λ d. then_return a (if b then write d u else (ok tt, u))) w
ends_with_save a true written u w x e = absurd (ground arith)
ends_with_save a true (fails left) u w (refused x) e = absurd (ground arith)
ends_with_save a true (fails left) u w os_error e = (refl, refl, (left, refl, refl))
ends_with_save a false disk u w x e = absurd (ground arith)

saves :
    (b : Bool) (disk : Disk) (u w : Watchlist)
    → Leaves disk (λ d. if b then write d u else (ok tt, u)) w
saves true written u w x e = absurd (ground arith)
saves true (fails left) u w (refused x) e = absurd (ground arith)
saves true (fails left) u w os_error e = (refl, refl, (left, refl, refl))
saves false disk u w x e = absurd (ground arith)

module _ (disk : Disk) (w : Watchlist) where
  add_new-Leaves : (s : String) (o : Option WatchItem) → Leaves disk (λ d. add_new s o d w) w
  unfolding save
  add_new-Leaves s (some i) = λ x e. absurd (ground arith)
  add_new-Leaves s none =
      let j : WatchItem = record { symbol = s; enabled = true } in
      let u = record w { items = set s j w.items } in
      if-Leaves disk w (leb w.limit (length w.items)) (λ d. (raised full, w))
        (λ d. then_return j (save d u)) (refuses-Leaves disk w WatchItem full)
        (ends_with_save j w.persist disk u w)

  remove_found-Leaves :
      (s : String) (o : Option WatchItem) → Leaves disk (λ d. remove_found s o d w) w
  unfolding save
  remove_found-Leaves s none = refuses-Leaves disk w (Unit {0}) unknown
  remove_found-Leaves s (some i) = saves w.persist disk (record w { items = pop s w.items }) w

  set_found-Leaves :
      (s : String) (b : Bool) (o : Option WatchItem) → Leaves disk (λ d. set_found s b o d w) w
  unfolding save
  set_found-Leaves s b none = refuses-Leaves disk w WatchItem unknown
  set_found-Leaves s b (some i) =
      let j : WatchItem = record { symbol = i.symbol; enabled = b } in
      ends_with_save j w.persist disk (record w { items = set s j w.items }) w

  replace_checked-Leaves :
      (o : Option (Dict String WatchItem)) → Leaves disk (λ d. replace_checked o d w) w
  unfolding save
  replace_checked-Leaves none = refuses-Leaves disk w (Unit {0}) duplicate
  replace_checked-Leaves (some seen) =
      let u = record w { items = seen } in
      if-Leaves disk w (ltb w.limit (length seen)) (λ d. (raised full, w)) (λ d. save d u)
        (refuses-Leaves disk w (Unit {0}) full) (saves w.persist disk u w)

-- what a call leaves that raises
abbrev pub Left : Exception → Disk → Call → Watchlist → Type 0
Left (refused x) disk c w = after disk c w ≡ w
Left os_error disk c w =
    (raises written c w ≡ none)
    × ((after disk c w).items ≡ (after written c w).items)
    × ((left : Option Content) × (disk ≡ fails left) × ((after disk c w).file ≡ left))

-- What a call that raises leaves: after a `WatchlistError` the watchlist and its file are as they were;
-- after the error of a failed write, which comes only where the call would return if the write succeeded,
-- the items are changed as if it had, and the file is what the write left.
pub raises_lem :
    (disk : Disk) (c : Call) (w : Watchlist) (x : Exception)
    → raises disk c w ≡ some x
    → Left x disk c w
unfolding after raises enable disable add remove replace set_enabled
raises_lem disk (add_call s) w (refused x) e = add_new-Leaves disk w s (get s w.items) (refused x) e
raises_lem disk (add_call s) w os_error e = add_new-Leaves disk w s (get s w.items) os_error e
raises_lem disk (remove_call s) w (refused x) e =
    remove_found-Leaves disk w s (get s w.items) (refused x) e
raises_lem disk (remove_call s) w os_error e =
    remove_found-Leaves disk w s (get s w.items) os_error e
raises_lem disk (enable_call s) w (refused x) e =
    set_found-Leaves disk w s true (get s w.items) (refused x) e
raises_lem disk (enable_call s) w os_error e =
    set_found-Leaves disk w s true (get s w.items) os_error e
raises_lem disk (disable_call s) w (refused x) e =
    set_found-Leaves disk w s false (get s w.items) (refused x) e
raises_lem disk (disable_call s) w os_error e =
    set_found-Leaves disk w s false (get s w.items) os_error e
raises_lem disk (replace_call items) w (refused x) e =
    replace_checked-Leaves disk w (collect items []) (refused x) e
raises_lem disk (replace_call items) w os_error e =
    replace_checked-Leaves disk w (collect items []) os_error e
