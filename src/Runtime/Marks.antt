-- ===== src/Runtime/Marks.antt =====
-- Which symbols a tick marks as fetched.
use mathlib.Core.Bool.{false≢true}
use mathlib.Core.Option.{some-injective}
use market_sentinel.Base.{
  ℕ, String, ◌≡◌, refl, ap, sym, subst, ◌∙◌, inl, inr, Bool, true, false, ◌||◌, Option, none, some,
  List, [], ◌∷◌, arith, if◌then◌else◌, is_some, Bool-cases, Option-cases,
}
use market_sentinel.Base.Eq.{string_eq, ◌==◌}
use market_sentinel.Base.Dict.{Dict, get, get-set}
use market_sentinel.Base.Float.{Float}
use market_sentinel.Domain.{
  SchedulerLevel, FeedStatus, MarketFeatures, MarketSnapshot, SignalPipelineResult,
}
use market_sentinel.Watchlist.{enabled_symbols}
use market_sentinel.Scheduler.{AdaptiveScheduler, set_level, mark_fetched, get_level}
use market_sentinel.RingBuffer.{RingBuffer}
use market_sentinel.Buffers
use market_sentinel.StateStore.{state_of}
use market_sentinel.Health.{peek_status}
use market_sentinel.Priority.{Formats}
use market_sentinel.Pipeline.{process}
use market_sentinel.Session.{Platform}
use market_sentinel.Features.Engine.{compute}
use market_sentinel.Runtime.{
  Moment, Clock, Answer, exhausted, failed, quotes, MarketEngine, EngineTickResult,
}
use market_sentinel.Runtime.Fetch.{
  is_fetched, found_from, is_older, observe_failure, mark, suppress, record_quote, accept_quote,
  ingest_snapshot, take_quote, take_all, keep, keep_all, fail_all, with_error, fetch_due,
}
use market_sentinel.Runtime.Process.{
  others, no_result, project, project_health, unchanged, finish, run_pipeline, features_of,
  run_features, process_symbol, process_all, project_all, fetch_if_due, after_fetch, due_now, tick,
}
use market_sentinel.Runtime.Fetched.{is_in}

either_way :
    {A : Type 0} (a b : Bool) (x o l m : A)
    → m ≡ (if a then x else o)
    → l ≡ (if b then x else m)
    → l ≡ (if a || b then x else o)
either_way true true x o l m h k = k
either_way true false x o l m h k = k ∙ h
either_way false true x o l m h k = k
either_way false false x o l m h k = k ∙ h

module _ {F : Type 0} ⦃f : Float F⦄ (clock : Clock F) where
  -- when a symbol was fetched last, if it was
  abbrev pub fetched_at : String → MarketEngine F → Option F
  fetched_at k e = get k e.scheduler.last_fetch_mono

  -- the symbols of a list are marked, and no other is
  abbrev pub Marked : List String → MarketEngine F → MarketEngine F → Type 0
  Marked symbols e d =
      (k : String)
      → fetched_at k d
        ≡ (if is_in k symbols then some (clock.monotonic Moment.fetched k) else fetched_at k e)

  Marked-once :
      (symbol : String) (e c : MarketEngine F)
      → c.scheduler ≡ e.scheduler
      → (k : String)
      → fetched_at k (mark clock symbol c)
        ≡ (if symbol == k then some (clock.monotonic Moment.fetched k) else fetched_at k e)
  unfolding mark mark_fetched
  Marked-once symbol e c same k =
      get-set symbol k (clock.monotonic Moment.fetched symbol) c.scheduler.last_fetch_mono
      ∙ (elim (Bool-cases (symbol == k)) [
        | inl h ↦
            rw h
              (ap (λ j. some (clock.monotonic Moment.fetched j)) ((string_eq.beq_iff symbol k).0 h))
        | inr h ↦ rw h (ap (λ (s : AdaptiveScheduler F). get k s.last_fetch_mono) same)
      ])

  Marked-then :
      (symbol : String) (symbols : List String) (e c d : MarketEngine F)
      → c.scheduler ≡ e.scheduler
      → Marked symbols (mark clock symbol c) d
      → Marked (symbol ∷ symbols) e d
  Marked-then symbol symbols e c d same rest k =
      either_way (symbol == k) (is_in k symbols) (some (clock.monotonic Moment.fetched k))
        (fetched_at k e) (fetched_at k d) (fetched_at k (mark clock symbol c))
        (Marked-once symbol e c same k) (rest k)

  accept_quote-scheduler :
      (symbol : String) (x : MarketSnapshot F) (p : FeedStatus) (o : Option (MarketSnapshot F))
      (e d : MarketEngine F)
      → accept_quote clock symbol x p o e ≡ some d
      → d.scheduler ≡ e.scheduler
  unfolding accept_quote record_quote
  accept_quote-scheduler symbol x p o e d r = elim (Option-cases (Buffers.append x e.buffers)) [
    | inl q ↦ absurd (false≢true (ap is_some (rw (q, accept_quote) at r)))
    | inr (t, q) ↦
        ap (λ (c : MarketEngine F). c.scheduler)
          (sym (some-injective _ _ (rw (q, accept_quote) at r)))
  ]

  take_quote-scheduler :
      (symbol : String) (o : Option (MarketSnapshot F)) (e d : MarketEngine F)
      → take_quote clock symbol o e ≡ some d
      → d.scheduler ≡ e.scheduler
  unfolding take_quote observe_failure ingest_snapshot suppress
  take_quote-scheduler symbol none e d r =
      ap (λ (c : MarketEngine F). c.scheduler) (sym (some-injective _ _ r))
  take_quote-scheduler symbol (some x) e d r =
      let previous = peek_status (clock.monotonic Moment.peeked symbol) symbol e.health in
      let latest = Buffers.latest symbol e.buffers in
      elim (Bool-cases (is_older x latest)) [
        | inl h ↦
            ap (λ (c : MarketEngine F). c.scheduler)
              (sym (some-injective _ _ (rw (h, ingest_snapshot) at r)))
        | inr h ↦ accept_quote-scheduler symbol x previous latest e d (rw (h, ingest_snapshot) at r)
      ]

  take_all-Marked :
      (found : Dict String (MarketSnapshot F)) (symbols : List String) (e d : MarketEngine F)
      → take_all clock found symbols e ≡ some d
      → Marked symbols e d
  unfolding take_all
  take_all-Marked found [] e d r k = ap (fetched_at k) (sym (some-injective _ _ r))
  take_all-Marked found (symbol ∷ symbols) e d r k =
      elim (Option-cases (take_quote clock symbol (get symbol found) e)) [
        | inl q ↦ absurd (false≢true (ap is_some (rw (q, take_all) at r)))
        | inr (c, q) ↦
            Marked-then symbol symbols e c d (take_quote-scheduler symbol (get symbol found) e c q)
              (take_all-Marked found symbols (mark clock symbol c) d (rw (q, take_all) at r)) k
      ]

  keep_all-Marked :
      (symbols : List String) (e : MarketEngine F) → Marked symbols e (keep_all clock symbols e)
  unfolding keep_all
  keep_all-Marked [] e k = refl
  keep_all-Marked (symbol ∷ symbols) e k =
      Marked-then symbol symbols e (keep clock symbol e) (keep_all clock (symbol ∷ symbols) e) refl
        (keep_all-Marked symbols _) k

  fail_all-Marked :
      (symbols : List String) (e : MarketEngine F) → Marked symbols e (fail_all clock symbols e)
  unfolding fail_all observe_failure
  fail_all-Marked [] e k = refl
  fail_all-Marked (symbol ∷ symbols) e k =
      Marked-then symbol symbols e (observe_failure clock symbol e)
        (fail_all clock (symbol ∷ symbols) e) refl (fail_all-Marked symbols _) k

  fetch_if_due-Marked :
      (answer : Answer F) (symbols : List String) (e d : MarketEngine F)
      → fetch_if_due clock answer symbols e ≡ some d
      → Marked symbols e d
  unfolding fetch_due
  fetch_if_due-Marked answer [] e d r k = ap (fetched_at k) (sym (some-injective _ _ r))
  fetch_if_due-Marked exhausted (symbol ∷ symbols) e d r k =
      subst (Marked (symbol ∷ symbols) e) (some-injective _ _ r)
        (keep_all-Marked (symbol ∷ symbols) e) k
  fetch_if_due-Marked (failed name) (symbol ∷ symbols) e d r k =
      subst (Marked (symbol ∷ symbols) e) (some-injective _ _ r)
        (fail_all-Marked (symbol ∷ symbols) (with_error clock (some name) e)) k
  fetch_if_due-Marked (quotes items) (symbol ∷ symbols) e d r k =
      take_all-Marked (found_from [] items) (symbol ∷ symbols) (with_error clock none e) d r k

  set_level-fetched :
      (now : F) (force : Bool) (symbol : String) (level : SchedulerLevel) (s : AdaptiveScheduler F)
      → (set_level now force symbol level s).1.last_fetch_mono ≡ s.last_fetch_mono
  unfolding set_level
  set_level-fetched now force symbol level s = ground arith

  -- what the marks are kept in
  abbrev marks : MarketEngine F → Dict String F
  marks e = e.scheduler.last_fetch_mono

  unchanged-marks :
      (symbol : String) (level : SchedulerLevel) (e : MarketEngine F)
      → marks (unchanged clock symbol level e).1 ≡ marks e
  unfolding unchanged project_health project
  unchanged-marks symbol level e = refl

  finish-marks :
      (symbol : String) (level : SchedulerLevel) (features : Option (MarketFeatures F))
      (result : SignalPipelineResult F) (e : MarketEngine F)
      → marks (finish clock symbol level features result e).1 ≡ marks e
  unfolding finish project
  finish-marks symbol level features result e = set_level-fetched _ false symbol _ e.scheduler

  project_all-marks :
      (symbols : List String) (e : MarketEngine F) → marks (project_all clock symbols e) ≡ marks e
  unfolding project_all project_health project
  project_all-marks [] e = refl
  project_all-marks (symbol ∷ symbols) e = project_all-marks symbols _

  module _ (uuid : ℕ → String) (fmt : Formats F) (lib : Platform F) where
    run_pipeline-marks :
        (symbol : String) (level : SchedulerLevel) (features : Option (MarketFeatures F))
        (e : MarketEngine F)
        → marks (run_pipeline uuid fmt lib clock symbol level features e).1 ≡ marks e
    unfolding run_pipeline
    run_pipeline-marks symbol level none e = finish-marks symbol level none no_result e
    run_pipeline-marks symbol level (some features) e =
        elim (Option-cases (
          process uuid fmt (clock.now symbol) (clock.monotonic Moment.processed symbol)
            (features_of (state_of symbol e.states)) features e.pipeline)) [
              | inl r ↦ rw (r, run_pipeline) (unchanged-marks symbol level e)
              | inr (out, r) ↦
                  rw (r, run_pipeline)
                    (finish-marks symbol level (some features) out.0
                      (record e { pipeline = out.1 }))
            ]

    run_features-marks :
        (symbol : String) (level : SchedulerLevel) (b : Option (RingBuffer F)) (e : MarketEngine F)
        → marks (run_features uuid fmt lib clock symbol level b e).1 ≡ marks e
    unfolding run_features project_health project
    run_features-marks symbol level none e = refl
    run_features-marks symbol level (some b) e =
        elim (Option-cases (compute lib e.feature_policy b)) [
          | inl r ↦ rw (r, run_features) (unchanged-marks symbol level e)
          | inr (features, r) ↦ rw (r, run_features) (run_pipeline-marks symbol level features e)
        ]

    process_symbol-marks :
        (symbol : String) (e : MarketEngine F)
        → marks (process_symbol uuid fmt lib clock symbol e).1 ≡ marks e
    unfolding process_symbol
    process_symbol-marks symbol e =
        let level = get_level symbol e.scheduler in
        elim (Bool-cases (is_fetched symbol e.fetched_symbols)) [
          | inl h ↦
              rw (h, process_symbol)
                (run_features-marks symbol level (Buffers.buffer symbol e.buffers) e)
          | inr h ↦ rw (h, process_symbol) (unchanged-marks symbol level e)
        ]

    process_all-marks :
        (symbols : List String) (e : MarketEngine F)
        → marks (process_all uuid fmt lib clock symbols e).1 ≡ marks e
    unfolding process_all
    process_all-marks [] e = refl
    process_all-marks (symbol ∷ symbols) e =
        process_all-marks symbols (process_symbol uuid fmt lib clock symbol e).1
        ∙ process_symbol-marks symbol e

    after_fetch-marks :
        (enabled due : List String) (c : MarketEngine F)
        → marks (after_fetch uuid fmt lib clock enabled due c).1 ≡ marks c
    unfolding after_fetch
    after_fetch-marks enabled due c =
        project_all-marks (others enabled due) (process_all uuid fmt lib clock due c).1
        ∙ process_all-marks due c

    -- After a tick that does not raise, every symbol that was due is marked as fetched at the reading of
    -- the clock that follows its fetch, whether the source is exhausted, the fetch failed, its quote is
    -- missing, older or new, and whatever its processing did; no other symbol's mark has moved.
    pub tick-Marked :
        (answer : Answer F) (e d : MarketEngine F) (r : EngineTickResult F)
        → tick uuid fmt lib clock answer e ≡ some (r, d)
        → Marked (due_now clock e) e d
    unfolding tick
    tick-Marked answer e d r h k =
        let e0 : MarketEngine F = record e { fetched_symbols = [] } in
        elim (Option-cases (fetch_if_due clock answer (due_now clock e) e0)) [
          | inl q ↦ absurd (false≢true (ap is_some (rw (q, tick) at h)))
          | inr (c, q) ↦
              let after : (after_fetch uuid fmt lib clock (enabled_symbols e.watchlist)
                    (due_now clock e) c).1
                  ≡ d =
                ap (λ (z : EngineTickResult F × MarketEngine F). z.1)
                  (some-injective _ _ (rw (q, tick) at h)) in
              ap (fetched_at k) (sym after)
              ∙ ap (get k) (after_fetch-marks (enabled_symbols e.watchlist) (due_now clock e) c)
              ∙ fetch_if_due-Marked answer (due_now clock e) e0 c q k
        ]
