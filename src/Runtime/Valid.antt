-- ===== src/Runtime/Valid.antt =====
-- What processing the symbols brings about, and what it leaves alone.
use market_sentinel.Base.{
  ℕ, String, ◌≡◌, refl, ap, subst, ◌∙◌, ◌⊎◌, inl, inr, true, false, Option, none, some, List, [],
  ◌∷◌, arith, map, All, Bool-cases, Option-cases,
}
use market_sentinel.Base.Eq.{string_eq}
use market_sentinel.Base.Float.{Float}
use market_sentinel.Domain.{SchedulerLevel, MarketFeatures, SignalPipelineResult}
use market_sentinel.RingBuffer.{RingBuffer}
use market_sentinel.Buffers
use market_sentinel.Buffers.Newest
use market_sentinel.StateStore.{state_of}
use market_sentinel.Scheduler.{get_level}
use market_sentinel.Priority.{Formats}
use market_sentinel.Composer.Valid.{IsValid as ComposerIsValid}
use market_sentinel.Pipeline.{SignalPipeline}
use market_sentinel.Pipeline.Processed.{process-IsValid}
use market_sentinel.Session.{Platform}
use market_sentinel.Features.Engine.{compute}
use market_sentinel.Runtime.{Moment, Clock, MarketEngine, SymbolTickResult}
use market_sentinel.Runtime.Fetch.{is_fetched}
use market_sentinel.Runtime.Process.{
  no_result, features_of, tick_result, project, project_health, unchanged, finish, run_pipeline,
  run_features, process_symbol, process_all, project_all,
}

module _ {F : Type 0} where
  -- a result that says nothing new
  pub record IsQuiet (r : SymbolTickResult F) : Type 0 where
    pub no_events : r.accepted_events ≡ []
    pub no_updates : r.signal_updates ≡ []
    pub no_alerts : r.alert_candidates ≡ []

  -- what processing leaves alone
  pub record Same (e d : MarketEngine F) : Type 0 where
    pub buffers : d.buffers ≡ e.buffers
    pub watchlist : d.watchlist ≡ e.watchlist
    pub fetched_symbols : d.fetched_symbols ≡ e.fetched_symbols

  Same-refl : (e : MarketEngine F) → Same e e
  Same-refl e = record { buffers = refl; watchlist = refl; fetched_symbols = refl }

  pub Same-trans : (a b c : MarketEngine F) → Same a b → Same b c → Same a c
  Same-trans a b c h k = record {
    buffers = k.buffers ∙ h.buffers;
    watchlist = k.watchlist ∙ h.watchlist;
    fetched_symbols = k.fetched_symbols ∙ h.fetched_symbols;
  }

  -- the symbols of the results, in order
  abbrev pub symbols_of : List (SymbolTickResult F) → List String
  symbols_of = map (λ (r : SymbolTickResult F). r.symbol)

module _ {F : Type 0} ⦃f : Float F⦄ where
  -- the buffers are well-formed, and so is the composer
  pub record IsValid (uuid : ℕ → String) (e : MarketEngine F) : Type 0 where
    pub buffers : Buffers.Newest.IsValid e.buffers
    pub composer : ComposerIsValid uuid e.pipeline.composer

  module _ (clock : Clock F) where
    Same-project_health :
        (symbol : String) (e : MarketEngine F) → Same e (project_health clock symbol e)
    unfolding project_health project
    Same-project_health symbol e = record {
      buffers = refl;
      watchlist = refl;
      fetched_symbols = refl;
    }

    project_health-pipeline :
        (symbol : String) (e : MarketEngine F)
        → (project_health clock symbol e).pipeline ≡ e.pipeline
    unfolding project_health project
    project_health-pipeline symbol e = refl

    pub project_all-Same :
        (symbols : List String) (e : MarketEngine F)
        → Same e (project_all clock symbols e)
          × ((project_all clock symbols e).pipeline ≡ e.pipeline)
    unfolding project_all
    project_all-Same [] e = (Same-refl e, refl)
    project_all-Same (symbol ∷ symbols) e =
        let c = project_health clock symbol e in
        let (same, p) = project_all-Same symbols c in
        (
          Same-trans e c (project_all clock symbols c) (Same-project_health symbol e) same,
          p ∙ project_health-pipeline symbol e,
        )

  module _ (uuid : ℕ → String) where
    -- what processing a symbol brings about
    pub record Processed (symbol : String) (e : MarketEngine F)
        (out : SymbolTickResult F × MarketEngine F) : Type 0 where
      pub same : Same e out.1
      pub composer : ComposerIsValid uuid out.1.pipeline.composer
      pub own_symbol : out.0.symbol ≡ symbol
      pub quiet : is_fetched symbol e.fetched_symbols ≡ false → IsQuiet out.0

    Processed-unchanged :
        (clock : Clock F) (symbol : String) (level : SchedulerLevel) (e : MarketEngine F)
        → ComposerIsValid uuid e.pipeline.composer
        → Processed symbol e (unchanged clock symbol level e)
    unfolding unchanged tick_result
    Processed-unchanged clock symbol level e v = record {
      same = Same-project_health clock symbol e;
      composer = rw (project_health-pipeline clock symbol e) v;
      own_symbol = refl;
      quiet = λ h. record { no_events = refl; no_updates = refl; no_alerts = refl };
    }

    Processed-finish :
        (clock : Clock F) (symbol : String) (level : SchedulerLevel)
        (features : Option (MarketFeatures F)) (result : SignalPipelineResult F)
        (p : SignalPipeline F) (e : MarketEngine F)
        → ComposerIsValid uuid p.composer
        → is_fetched symbol e.fetched_symbols ≡ true
        → Processed symbol e (finish clock symbol level features result (record e { pipeline = p }))
    unfolding finish project tick_result
    Processed-finish clock symbol level features result p e v h = record {
      same = record { buffers = refl; watchlist = refl; fetched_symbols = refl };
      composer = v;
      own_symbol = refl;
      quiet = λ k. absurd (ground arith);
    }

    module _ (unique : (i j : ℕ) → uuid i ≡ uuid j → i ≡ j) (fmt : Formats F) (lib : Platform F)
        (clock : Clock F) where
      Processed-run_pipeline :
          (symbol : String) (level : SchedulerLevel) (features : Option (MarketFeatures F))
          (e : MarketEngine F)
          → ComposerIsValid uuid e.pipeline.composer
          → is_fetched symbol e.fetched_symbols ≡ true
          → Processed symbol e (run_pipeline uuid fmt lib clock symbol level features e)
      unfolding run_pipeline
      Processed-run_pipeline symbol level none e v h =
          Processed-finish clock symbol level none no_result e.pipeline e v h
      Processed-run_pipeline symbol level (some features) e v h =
          let (result, p, r, w, fits, once) =
            process-IsValid uuid unique fmt (clock.now symbol)
              (clock.monotonic Moment.processed symbol) (features_of (state_of symbol e.states))
              features e.pipeline v in
          rw (r, run_pipeline) (Processed-finish clock symbol level (some features) result p e w h)

      Processed-run_features :
          (symbol : String) (level : SchedulerLevel) (b : Option (RingBuffer F))
          (e : MarketEngine F)
          → ComposerIsValid uuid e.pipeline.composer
          → is_fetched symbol e.fetched_symbols ≡ true
          → Processed symbol e (run_features uuid fmt lib clock symbol level b e)
      unfolding run_features tick_result
      Processed-run_features symbol level none e v h = record {
        same = Same-project_health clock symbol e;
        composer = rw (project_health-pipeline clock symbol e) v;
        own_symbol = refl;
        quiet = λ k. record { no_events = refl; no_updates = refl; no_alerts = refl };
      }
      Processed-run_features symbol level (some b) e v h =
          elim (Option-cases (compute lib e.feature_policy b)) [
            | inl r ↦ rw (r, run_features) (Processed-unchanged clock symbol level e v)
            | inr (features, r) ↦
                rw (r, run_features) (Processed-run_pipeline symbol level features e v h)
          ]

      process_symbol-Processed :
          (symbol : String) (e : MarketEngine F)
          → ComposerIsValid uuid e.pipeline.composer
          → Processed symbol e (process_symbol uuid fmt lib clock symbol e)
      unfolding process_symbol
      process_symbol-Processed symbol e v =
          let level = get_level symbol e.scheduler in
          elim (Bool-cases (is_fetched symbol e.fetched_symbols)) [
            | inl h ↦
                rw (h, process_symbol)
                  (Processed-run_features symbol level (Buffers.buffer symbol e.buffers) e v h)
            | inr h ↦ rw (h, process_symbol) (Processed-unchanged clock symbol level e v)
          ]

      -- quiet, or of a symbol that is counted as fetched
      abbrev pub Heard : List String → SymbolTickResult F → Type 0
      Heard fetched r = IsQuiet r ⊎ (is_fetched r.symbol fetched ≡ true)

      Heard-one :
          (symbol : String) (e : MarketEngine F) (out : SymbolTickResult F × MarketEngine F)
          → Processed symbol e out
          → Heard e.fetched_symbols out.0
      Heard-one symbol e out p = elim (Bool-cases (is_fetched symbol e.fetched_symbols)) [
        | inl h ↦ inr (rw p.own_symbol h)
        | inr h ↦ inl (p.quiet h)
      ]

      pub process_all-Processed :
          (symbols : List String) (e : MarketEngine F)
          → ComposerIsValid uuid e.pipeline.composer
          → let (rs, d) = process_all uuid fmt lib clock symbols e in
            Same e d
            × ComposerIsValid uuid d.pipeline.composer
            × (symbols_of rs ≡ symbols)
            × All (Heard e.fetched_symbols) rs
      unfolding process_all
      process_all-Processed [] e v = (Same-refl e, v, refl, tt)
      process_all-Processed (symbol ∷ symbols) e v =
          let (r, c) = process_symbol uuid fmt lib clock symbol e in
          let one = process_symbol-Processed symbol e v in
          let (same, w, own, heard) = process_all-Processed symbols c one.composer in
          let (rs, d) = process_all uuid fmt lib clock symbols c in
          (
            Same-trans e c d one.same same,
            w,
            (rw one.own_symbol (ap (λ ks. symbol ∷ ks) own)),
            (
              Heard-one symbol e (r, c) one,
              subst (λ fetched. All (Heard fetched) rs) one.same.fetched_symbols heard,
            ),
          )
