-- ===== src/Runtime/Ticked.antt =====
-- A tick of a well-formed engine succeeds, and what it brings about.
use market_sentinel.Base.{
  ℕ, String, ◌≡◌, refl, ap, ◌∙◌, ◌⊎◌, inl, inr, true, Option, some, List, [], ◌∷◌, arith,
  if◌then◌else◌, All, All-map_imp,
}
use market_sentinel.Base.Eq.{string_eq}
use market_sentinel.Base.Float.{Float, IsOrdered, IsMonotone}
use market_sentinel.Domain.{SchedulerLevel, MarketFeatures, SignalPipelineResult}
use market_sentinel.Watchlist.{enabled_symbols}
use market_sentinel.Buffers
use market_sentinel.Buffers.Newest
use market_sentinel.Priority.{Formats}
use market_sentinel.Composer.Valid.{IsValid as ComposerIsValid}
use market_sentinel.Session.{Platform}
use market_sentinel.Runtime.{Clock, Answer, MarketEngine, SymbolTickResult, EngineTickResult}
use market_sentinel.Runtime.Fetch.{is_fetched}
use market_sentinel.Runtime.Process.{
  others, process_all, project_all, fetch_if_due, after_fetch, due_now, tick,
}
use market_sentinel.Runtime.Newest.{quote_for, merged, is_fresh}
use market_sentinel.Runtime.Fetched.{is_in, Fetched, fetch_due-Fetched}
use market_sentinel.Runtime.Valid.{
  IsQuiet, Same-trans, symbols_of, IsValid, project_all-Same, Heard, process_all-Processed,
}

module _ {F : Type 0} ⦃f : Float F⦄ (uuid : ℕ → String)
    (unique : (i j : ℕ) → uuid i ≡ uuid j → i ≡ j) (fmt : Formats F) (lib : Platform F)
    (clock : Clock F) where
  -- what a tick brings about
  pub record Ticked (answer : Answer F) (e : MarketEngine F)
      (out : EngineTickResult F × MarketEngine F) : Type 0 where
    pub valid : IsValid uuid out.1
    pub same_watchlist : out.1.watchlist ≡ e.watchlist
    pub in_order : symbols_of out.0.symbol_results ≡ due_now clock e
    pub newest :
        (k : String)
        → Buffers.latest k out.1.buffers ≡ (
            if is_in k (due_now clock e)
            then merged (Buffers.latest k e.buffers) (quote_for k answer)
            else Buffers.latest k e.buffers)
    pub heard :
        All
          (λ r.
            IsQuiet r
            ⊎ (is_fresh (quote_for r.symbol answer) (Buffers.latest r.symbol e.buffers) ≡ true))
          out.0.symbol_results

  fetch_if_due-Fetched :
      (laws : IsOrdered F) (mono : IsMonotone F) (answer : Answer F) (symbols : List String)
      (e : MarketEngine F)
      → Buffers.Newest.IsValid e.buffers
      → (d : MarketEngine F) × (fetch_if_due clock answer symbols e ≡ some d)
        × Fetched (λ k. quote_for k answer) symbols e d
  fetch_if_due-Fetched laws mono answer [] e v = (
    e,
    refl,
    record {
      valid = v;
      newest = λ k. refl;
      fetched = λ k h. inl h;
      same_watchlist = refl;
      same_pipeline = refl;
    },
  )
  fetch_if_due-Fetched laws mono answer (symbol ∷ symbols) e v =
      fetch_due-Fetched clock laws mono answer (symbol ∷ symbols) e v

  Heard-fresh :
      (q : String → Option (market_sentinel.Domain.Records.MarketSnapshot F))
      (symbols : List String) (e d : MarketEngine F) (rs : List (SymbolTickResult F))
      → e.fetched_symbols ≡ []
      → Fetched q symbols e d
      → All (Heard uuid unique fmt lib clock d.fetched_symbols) rs
      → All (λ r. IsQuiet r ⊎ (is_fresh (q r.symbol) (Buffers.latest r.symbol e.buffers) ≡ true)) rs
  Heard-fresh q symbols e d rs none_yet h =
      All-map_imp (Heard uuid unique fmt lib clock d.fetched_symbols) _ rs λ r p. elim p [
        | inl quiet ↦ inl quiet
        | inr m ↦ elim (h.fetched r.symbol m) [
          | inl old ↦ absurd (ground (arith, old, ap (is_fetched r.symbol) none_yet))
          | inr fresh ↦ inr fresh
        ]
      ]

  after_fetch-Ticked :
      (answer : Answer F) (e d : MarketEngine F)
      → IsValid uuid e
      → Fetched (λ k. quote_for k answer) (due_now clock e) (record e { fetched_symbols = [] }) d
      → Ticked answer e
          (after_fetch uuid fmt lib clock (enabled_symbols e.watchlist) (due_now clock e) d)
  unfolding after_fetch
  after_fetch-Ticked answer e d v h =
      let due = due_now clock e in
      let rest = others (enabled_symbols e.watchlist) due in
      let e0 : MarketEngine F = record e { fetched_symbols = [] } in
      let v0 : ComposerIsValid uuid d.pipeline.composer = rw h.same_pipeline v.composer in
      let (same, w, own, heard) = process_all-Processed uuid unique fmt lib clock due d v0 in
      let (rs, c) = process_all uuid fmt lib clock due d in
      let (last, p) = project_all-Same clock rest c in
      let all = Same-trans d c (project_all clock rest c) same last in
      record {
        valid = record { buffers = rw all.buffers h.valid; composer = rw p w };
        same_watchlist = all.watchlist ∙ h.same_watchlist;
        in_order = own;
        newest = λ k. ap (Buffers.latest k) all.buffers ∙ h.newest k;
        heard = Heard-fresh (λ k. quote_for k answer) due e0 d rs refl h heard;
      }

  -- A tick of an engine whose buffers and composer are well-formed never raises, whatever the
  -- provider does (its source is exhausted, the fetch fails, or any list of quotes comes back, with
  -- symbols missing, unasked, repeated or out of order) and whatever the clocks read: the engine is
  -- well-formed after it, the watchlist is the same, there is one result for each symbol that was
  -- due, in order, and the newest snapshot of a due symbol is the last quote for it unless that is
  -- older, and of any other symbol what it was. A result has no event, update or alert unless a
  -- quote came for its symbol that is not older than the newest snapshot before.
  pub tick-Ticked :
      (laws : IsOrdered F) (mono : IsMonotone F) (answer : Answer F) (e : MarketEngine F)
      → IsValid uuid e
      → (r : EngineTickResult F) × (d : MarketEngine F) × (tick uuid fmt lib clock answer e
          ≡ some (r, d))
        × Ticked answer e (r, d)
  unfolding tick
  tick-Ticked laws mono answer e v =
      let e0 : MarketEngine F = record e { fetched_symbols = [] } in
      let (d, r, h) = fetch_if_due-Fetched laws mono answer (due_now clock e) e0 v.buffers in
      let out = after_fetch uuid fmt lib clock (enabled_symbols e.watchlist) (due_now clock e) d in
      (out.0, out.1, rw (r, tick) refl, after_fetch-Ticked answer e d v h)
