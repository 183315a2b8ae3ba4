-- ===== src/Tests/Lists.antt =====
-- Tests of the watchlist, the ring buffers, the scheduler and the state store.
use market_sentinel.Base.{
  ℕ, String, ◌≡◌, ◌≢◌, refl, Bool, true, false, ◌&&◌, Option, none, some, List, [], ◌∷◌, arith, ltb,
  if◌then◌else◌, not, any, drop, last?,
}
use market_sentinel.Base.Eq.{string_eq, ◌==◌}
use market_sentinel.Base.Dict.{get, set}
use market_sentinel.Base.Float.{
  Micro, Micro-IsOrdered, Micro-IsMonotone, micro_float, num, le, sub, ◌≼◌,
}
use market_sentinel.Domain.{WatchItem, FeedStatus, SchedulerLevel, level_eq, MarketSnapshot}
use market_sentinel.Watchlist
use market_sentinel.Watchlist.{
  Watchlist, WatchlistError, Outcome, full, raised, duplicate, ok, broken, Disk, written, fails,
  garbled, Content,
}
use market_sentinel.Watchlist.Stored
use market_sentinel.Watchlist.Stored.{Python}
use market_sentinel.Watchlist.Limit
use market_sentinel.Watchlist.History.{
  Call, add_call, disable_call, after, after_all, raises, IsValid-init, after_all-IsValid,
  list-restart, AllWritten, os_error,
}
use market_sentinel.Watchlist.Failures.{raises_lem}
use market_sentinel.Watchlist.Replace.{replace_lem, distinct, is_written}
use market_sentinel.RingBuffer
use market_sentinel.RingBuffer.{RingBuffer}
use market_sentinel.RingBuffer.Place.{place}
use market_sentinel.RingBuffer.Bounds
use market_sentinel.RingBuffer.Bounds.{append-IsValid, empty-IsValid}
use market_sentinel.RingBuffer.Queries.{at_or_before_lem, append_lem, newer, up_to}
use market_sentinel.Buffers
use market_sentinel.Buffers.{SymbolBuffers}
use market_sentinel.Buffers.Newest
use market_sentinel.Buffers.Newest.{append_all, append_all_newest, newest_of}
use market_sentinel.Scheduler
use market_sentinel.Scheduler.{AdaptiveScheduler}
use market_sentinel.Scheduler.Transitions.{set_level_lem, change_after_dwell, grants}
use market_sentinel.Scheduler.Due.{next_wait-le}
use market_sentinel.StateStore.{MarketStateStore, RuntimeUpdate, state_of}
use market_sentinel.StateStore.Fields.{
  Write, latest_write, runtime_write, view, write_all, last_view, write_all_lem,
}
use market_sentinel.Tests.{quote_at, item}

abbrev start : Watchlist
start = record { limit = 2; persist = true; file = none; items = [] }

start-IsValid : Limit.IsValid start
start-IsValid = IsValid-init 2 true

abbrev calls : List (Disk × Call)
calls =
    (written, add_call "AAA")
    ∷ (written, add_call "BBB")
    ∷ (written, add_call "CCC")
    ∷ (written, disable_call "AAA")
    ∷ []

calls_written : AllWritten calls
calls_written = (refl, (refl, (refl, (refl, tt))))

disabled_and_full :
    Watchlist.list (after_all calls start)
    ≡ (record { symbol = "AAA"; enabled = false }) ∷ item "BBB" ∷ []
unfolding after_all after Watchlist.list Watchlist.add Watchlist.disable get set
disabled_and_full = refl

after_all-IsValid_example : Limit.IsValid (after_all calls start)
after_all-IsValid_example = after_all-IsValid calls start calls_written start-IsValid

-- `str` and `bool` of the values that the source never writes
abbrev python : Python
python = record { str = λ v. "?"; nonzero = λ n. true }

list-restart_example :
    (u : Watchlist) × (Watchlist.init python start.limit true (after_all calls start).file ≡ some u)
    × (Watchlist.list u ≡ Watchlist.list (after_all calls start))
list-restart_example = list-restart python calls start calls_written start-IsValid refl

-- an item without a flag is read as enabled, and one without a symbol raises
flag_by_default :
    Stored.read_raw python
      (Stored.object (Stored.member "symbol" (Stored.text "AAA") Stored.no_members))
    ≡ some (item "AAA")
unfolding Stored.read_raw Stored.lookup
flag_by_default = refl

no_symbol :
    Stored.read_raw python
      (Stored.object (Stored.member "enabled" (Stored.flag true) Stored.no_members))
    ≡ none
unfolding Stored.read_raw Stored.lookup
no_symbol = refl

abbrev one_item : Watchlist
one_item = record { limit = 2; persist = true; file = none; items = ("AAA", item "AAA") ∷ [] }

-- the text is cut short
abbrev cut_short : Disk
cut_short = fails (some garbled)

write_error : raises cut_short (add_call "BBB") one_item ≡ some os_error
unfolding raises Watchlist.add get
write_error = refl

-- A second `add` of a symbol whose write failed finds it, and leaves the broken file as it is.
retry_not_saved :
    (raises written (add_call "BBB") (after cut_short (add_call "BBB") one_item) ≡ none)
    × ((after written (add_call "BBB") (after cut_short (add_call "BBB") one_item)).file
        ≡ some garbled)
unfolding raises after Watchlist.add get set
retry_not_saved = (refl, refl)

raises_lem_example :
    let w = after cut_short (add_call "BBB") one_item in
    (raises written (add_call "BBB") one_item ≡ none)
    × (w.items ≡ (after written (add_call "BBB") one_item).items)
    × ((left : Option Content) × (cut_short ≡ fails left) × (w.file ≡ left))
raises_lem_example = raises_lem cut_short (add_call "BBB") one_item os_error write_error

abbrev three : List WatchItem
three = item "BBB" ∷ item "AAA" ∷ item "BBB" ∷ []

replace_lem_example :
    ((Watchlist.replace three cut_short one_item).0 ≡ (
      if not (distinct three)
      then raised duplicate
      else if ltb one_item.limit 3
      then raised full
      else if one_item.persist && not (is_written cut_short)
      then broken
      else ok tt))
    × ((Watchlist.replace three cut_short one_item).0 ≡ ok tt
        → Watchlist.list (Watchlist.replace three cut_short one_item).1 ≡ three)
replace_lem_example = replace_lem three cut_short one_item

abbrev buffer : RingBuffer Micro
buffer = record { retention_s = num 100; max_size = 3; items = [] }

abbrev filled : RingBuffer Micro
filled = RingBuffer.append (quote_at "AAA" 30 7) (RingBuffer.append (quote_at "AAA" 50 8) buffer)

filled-IsValid : Bounds.IsValid filled
filled-IsValid =
    append-IsValid Micro-IsOrdered (quote_at "AAA" 30 7)
      (RingBuffer.append (quote_at "AAA" 50 8) buffer)
      (append-IsValid Micro-IsOrdered (quote_at "AAA" 50 8) buffer (empty-IsValid (num 100) 3))

append-IsValid_example : Bounds.IsValid (RingBuffer.append (quote_at "AAA" 50 8) buffer)
append-IsValid_example =
    append-IsValid Micro-IsOrdered (quote_at "AAA" 50 8) buffer (empty-IsValid (num 100) 3)

at_or_before_lem_example :
    RingBuffer.at_or_before (num 40) filled ≡ last? (up_to (num 40) filled.items)
at_or_before_lem_example = at_or_before_lem Micro-IsOrdered (num 40) filled filled-IsValid

append_lem_example :
    (RingBuffer.latest (RingBuffer.append (quote_at "AAA" 140 9) buffer)
      ≡ some (newer (RingBuffer.latest buffer) (quote_at "AAA" 140 9)))
    × ((n : ℕ) × ((RingBuffer.append (quote_at "AAA" 140 9) buffer).items
          ≡ drop n (place (quote_at "AAA" 140 9) buffer.items)))
append_lem_example =
    append_lem Micro-IsOrdered Micro-IsMonotone (quote_at "AAA" 140 9) buffer
      (empty-IsValid (num 100) 3) (omega arith) refl

abbrev no_buffers : SymbolBuffers Micro
no_buffers = record { retention_s = num 100; max_size = 3; buffers = [] }

no_buffers-IsValid : Newest.IsValid no_buffers
unfolding get
no_buffers-IsValid = record {
  room = omega arith;
  positive = refl;
  each = λ k b e. absurd (ground arith);
}

abbrev quotes : List (MarketSnapshot Micro)
quotes = quote_at "AAA" 50 8 ∷ quote_at "BBB" 10 5 ∷ quote_at "AAA" 30 7 ∷ []

append_all_newest_example :
    (t : SymbolBuffers Micro) × (append_all quotes no_buffers ≡ some t)
    × Newest.IsValid t
    × ((k : String) → Buffers.latest k t ≡ newest_of k (Buffers.latest k no_buffers) quotes)
append_all_newest_example =
    append_all_newest Micro-IsOrdered Micro-IsMonotone quotes no_buffers no_buffers-IsValid

abbrev scheduler : AdaptiveScheduler Micro
scheduler = record {
  policy = Scheduler.default_policy;
  levels = ("AAA", SchedulerLevel.hot) ∷ [];
  last_change_mono = ("AAA", num 100) ∷ [];
  last_fetch_mono = ("AAA", num 105) ∷ [];
}

set_level_lem_example :
    ((Scheduler.set_level (num 110) false "AAA" SchedulerLevel.cold scheduler).0
      ≡ grants (num 110) false "AAA" SchedulerLevel.cold scheduler)
    × ((k : String)
        → Scheduler.get_level k
            (Scheduler.set_level (num 110) false "AAA" SchedulerLevel.cold scheduler).1
          ≡ (if "AAA" == k && grants (num 110) false "AAA" SchedulerLevel.cold scheduler
              then SchedulerLevel.cold
              else Scheduler.get_level k scheduler))
set_level_lem_example = set_level_lem (num 110) false "AAA" SchedulerLevel.cold scheduler

changed_at : get "AAA" scheduler.last_change_mono ≡ some (num 100)
unfolding get
changed_at = refl

change_after_dwell_example :
    let t = (Scheduler.set_level (num 140) false "AAA" SchedulerLevel.warm scheduler).1 in
    (Scheduler.get_level "AAA" t ≢ Scheduler.get_level "AAA" scheduler
      → (Scheduler.required_dwell
            (Scheduler.get_level "AAA" scheduler)
            SchedulerLevel.warm
            scheduler
          ≼ sub (num 140) (num 100))
        × (get "AAA" t.last_change_mono ≡ some (num 140)))
    × (Scheduler.get_level "AAA" t ≡ Scheduler.get_level "AAA" scheduler
        → t.last_change_mono ≡ scheduler.last_change_mono)
change_after_dwell_example =
    change_after_dwell (num 140) (num 100) "AAA" SchedulerLevel.warm scheduler changed_at

next_wait-le_example :
    le (Scheduler.next_wait_s (num 107) ("AAA" ∷ "BBB" ∷ []) scheduler) (num 0)
    ≡ any (Scheduler.is_due (num 107) scheduler) ("AAA" ∷ "BBB" ∷ [])
next_wait-le_example =
    next_wait-le Micro-IsOrdered Micro-IsMonotone (num 107) scheduler "AAA" ("BBB" ∷ [])

abbrev eqs : String → String → Bool
eqs a b = a == b

abbrev store : MarketStateStore Micro
store = record { states = [] }

abbrev first_update : RuntimeUpdate Micro
first_update = record {
  symbol = "AAA";
  level = SchedulerLevel.warm;
  feed_status = FeedStatus.delayed;
  feed_latency = some (num 2);
  last_update_age = none;
  features = none;
  active_signals = some [];
}

abbrev writes : List (Write Micro)
writes = runtime_write first_update ∷ latest_write (quote_at "AAA" 50 8) ∷ []

level_kept : (view (state_of "AAA" (write_all writes store))).level ≡ SchedulerLevel.warm
unfolding write_all state_of get set
level_kept = refl

write_all_lem_example :
    view (state_of "AAA" (write_all writes store))
    ≡ last_view "AAA" (view (state_of "AAA" store)) writes
write_all_lem_example = write_all_lem "AAA" writes store
