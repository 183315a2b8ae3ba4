-- ===== src/Runtime/Fetch.antt =====
-- src/market_sentinel/runtime/engine.py: `_fetch_due` and `_ingest_snapshot`. `none` is the `ValueError`
-- of a ring buffer that cannot be made.
use market_sentinel.Base.{
  suc, String, Bool, false, ◌&&◌, ◌||◌, Option, none, some, List, [], ◌∷◌, if◌then◌else◌, any,
}
use market_sentinel.Base.Eq.{string_eq, ◌==◌}
use market_sentinel.Base.Dict.{Dict, get, set}
use market_sentinel.Base.Float.{Float, lt, eq}
use market_sentinel.Domain.{FeedStatus, status_eq, MarketSnapshot}
use market_sentinel.Scheduler.{mark_fetched}
use market_sentinel.Buffers
use market_sentinel.StateStore.{update_latest}
use market_sentinel.Health.{observe, keep_alive, peek_status, quote, failure}
use market_sentinel.Runtime.{Moment, Clock, Answer, exhausted, failed, quotes, MarketEngine}

-- `previous_status in {STALE, DISCONNECTED} and after in {LIVE, DELAYED}`
abbrev pub is_recovery : FeedStatus → FeedStatus → Bool
is_recovery previous after =
    (previous == FeedStatus.stale || previous == FeedStatus.disconnected)
    && (after == FeedStatus.live || after == FeedStatus.delayed)

-- `symbol in self._fetched_symbols`
abbrev pub is_fetched : String → List String → Bool
is_fetched symbol fetched = any (λ k. k == symbol) fetched

module _ {F : Type 0} where
  -- `{item.symbol: item for item in snapshots}`
  abbrev pub found_from :
      Dict String (MarketSnapshot F) → List (MarketSnapshot F) → Dict String (MarketSnapshot F)
  found_from found [] = found
  found_from found (item ∷ items) = found_from (set item.symbol item found) items

module _ {F : Type 0} ⦃f : Float F⦄ where
  -- `latest is not None and snapshot.market_timestamp < latest.market_timestamp`
  abbrev pub is_older : MarketSnapshot F → Option (MarketSnapshot F) → Bool
  is_older snapshot none = false
  is_older snapshot (some latest) = lt snapshot.market_timestamp latest.market_timestamp

  -- the same with `==`
  abbrev pub is_duplicate : MarketSnapshot F → Option (MarketSnapshot F) → Bool
  is_duplicate snapshot none = false
  is_duplicate snapshot (some latest) = eq snapshot.market_timestamp latest.market_timestamp

module _ {F : Type 0} ⦃f : Float F⦄ (clock : Clock F) where
  -- `self.health.observe(symbol, error=...)`
  unfoldable pub observe_failure : String → MarketEngine F → MarketEngine F
  unfolding observe
  observe_failure symbol e = record e {
    health = (observe (clock.monotonic Moment.observed symbol) symbol failure e.health).1;
  }

  unfoldable pub mark : String → MarketEngine F → MarketEngine F
  unfolding mark_fetched
  mark symbol e = record e {
    scheduler = mark_fetched (clock.monotonic Moment.fetched symbol) symbol e.scheduler;
  }

  -- the branch of an older quote
  unfoldable pub suppress : String → MarketEngine F → MarketEngine F
  unfolding observe_failure
  suppress symbol e = observe_failure symbol (record e {
    diagnostics = record e.diagnostics {
      out_of_order_count = suc e.diagnostics.out_of_order_count;
    };
  })

  -- the counts of duplicates and of recoveries
  abbrev pub count_duplicate : Bool → MarketEngine F → MarketEngine F
  count_duplicate is_one e = record e {
    diagnostics = record e.diagnostics {
      duplicate_timestamp_count =
          if is_one
          then suc e.diagnostics.duplicate_timestamp_count
          else e.diagnostics.duplicate_timestamp_count;
    };
  }

  abbrev pub count_recovery : Bool → MarketEngine F → MarketEngine F
  count_recovery is_one e = record e {
    diagnostics = record e.diagnostics {
      recovery_count =
          if is_one then suc e.diagnostics.recovery_count else e.diagnostics.recovery_count;
    };
  }

  -- what follows `self.buffers.append(snapshot)`
  unfoldable pub record_quote :
      String → MarketSnapshot F → FeedStatus → MarketEngine F → MarketEngine F
  unfolding update_latest observe peek_status
  record_quote symbol snapshot previous e =
      let health =
        (observe (clock.monotonic Moment.observed symbol) symbol (quote snapshot) e.health).1 in
      let after = peek_status (clock.monotonic Moment.peeked_again symbol) symbol health in
      count_recovery (is_recovery previous after) (record e {
        states = (update_latest snapshot e.states).1;
        health = health;
        fetched_symbols = symbol ∷ e.fetched_symbols;
      })

  -- the branch of a quote that is not older
  unfoldable pub accept_quote :
      String
      → MarketSnapshot F
      → FeedStatus
      → Option (MarketSnapshot F)
      → MarketEngine F
      → Option (MarketEngine F)
  unfolding record_quote Buffers.append
  accept_quote symbol snapshot previous latest e = elim (Buffers.append snapshot e.buffers) [
    | none ↦ none
    | some buffers ↦ some (
        record_quote symbol snapshot previous
          (record (count_duplicate (is_duplicate snapshot latest) e) { buffers = buffers }))
  ]

  -- `_ingest_snapshot`
  unfoldable pub ingest_snapshot :
      String → MarketSnapshot F → MarketEngine F → Option (MarketEngine F)
  unfolding accept_quote suppress peek_status Buffers.latest
  ingest_snapshot symbol snapshot e =
      let previous = peek_status (clock.monotonic Moment.peeked symbol) symbol e.health in
      let latest = Buffers.latest symbol e.buffers in
      if is_older snapshot latest
      then some (suppress symbol e)
      else accept_quote symbol snapshot previous latest e

  -- the quote that was found for a symbol, or its absence
  unfoldable pub take_quote :
      String → Option (MarketSnapshot F) → MarketEngine F → Option (MarketEngine F)
  unfolding ingest_snapshot observe_failure
  take_quote symbol none e = some (observe_failure symbol e)
  take_quote symbol (some snapshot) e = ingest_snapshot symbol snapshot e

  -- the loop over the due symbols, after an answer
  unfoldable pub take_all :
      Dict String (MarketSnapshot F) → List String → MarketEngine F → Option (MarketEngine F)
  unfolding take_quote mark
  take_all found [] e = some e
  take_all found (symbol ∷ symbols) e = elim (take_quote symbol (get symbol found) e) [
    | none ↦ none
    | some e' ↦ take_all found symbols (mark symbol e')
  ]

  -- `self.health.keep_alive(symbol)`
  abbrev pub keep : String → MarketEngine F → MarketEngine F
  keep symbol e = record e {
    health = keep_alive (clock.monotonic Moment.kept symbol) symbol e.health;
  }

  -- the loop where the source is exhausted
  unfoldable pub keep_all : List String → MarketEngine F → MarketEngine F
  unfolding keep_alive mark
  keep_all [] e = e
  keep_all (symbol ∷ symbols) e = keep_all symbols (mark symbol (keep symbol e))

  -- the loop where the fetch failed
  unfoldable pub fail_all : List String → MarketEngine F → MarketEngine F
  unfolding observe_failure mark
  fail_all [] e = e
  fail_all (symbol ∷ symbols) e = fail_all symbols (mark symbol (observe_failure symbol e))

  abbrev pub with_error : Option String → MarketEngine F → MarketEngine F
  with_error error e = record e { diagnostics = record e.diagnostics { last_fetch_error = error } }

  -- `_fetch_due`
  unfoldable pub fetch_due : Answer F → List String → MarketEngine F → Option (MarketEngine F)
  unfolding keep_all fail_all take_all
  fetch_due exhausted due e = some (keep_all due e)
  fetch_due (failed name) due e = some (fail_all due (with_error (some name) e))
  fetch_due (quotes snapshots) due e = take_all (found_from [] snapshots) due (with_error none e)
