-- ===== src/Runtime/Newest.antt =====
-- What a fetch does to the buffers, and which symbols it counts as fetched.
use market_sentinel.Base.{
  String, ◌≡◌, refl, ap, sym, subst, ◌∙◌, inl, inr, Bool, true, false, not, Option, none, some,
  List, [], ◌∷◌, arith, if◌then◌else◌, filter, last?, last?-cons, or_else, Bool-cases,
}
use market_sentinel.Base.Eq.{string_eq, ◌==◌}
use market_sentinel.Base.Dict.{Dict, get, set, get-set}
use market_sentinel.Base.Float.{Float, IsOrdered, IsMonotone}
use market_sentinel.Domain.{FeedStatus, MarketSnapshot}
use market_sentinel.RingBuffer.Queries.{newer}
use market_sentinel.Buffers
use market_sentinel.Buffers.Newest.{IsValid, append_newest}
use market_sentinel.Health.{peek_status}
use market_sentinel.Runtime.{Moment, Clock, Answer, exhausted, failed, quotes, MarketEngine}
use market_sentinel.Runtime.Fetch.{
  found_from, is_older, is_duplicate, observe_failure, suppress, count_duplicate, record_quote,
  accept_quote, ingest_snapshot, take_quote,
}

module _ {F : Type 0} where
  -- the last of the quotes for a symbol
  abbrev pub last_for : String → List (MarketSnapshot F) → Option (MarketSnapshot F)
  last_for k items = last? (filter (λ (s : MarketSnapshot F). s.symbol == k) items)

  -- the quote of an answer for a symbol
  abbrev pub quote_for : String → Answer F → Option (MarketSnapshot F)
  quote_for k exhausted = none
  quote_for k (failed name) = none
  quote_for k (quotes items) = last_for k items

  -- the first value, if it is there, or the other
  abbrev pub or_other :
      Option (MarketSnapshot F) → Option (MarketSnapshot F) → Option (MarketSnapshot F)
  or_other none o = o
  or_other (some x) o = some x

  or_other-some :
      (o : Option (MarketSnapshot F)) (item : MarketSnapshot F)
      → or_other o (some item) ≡ some (or_else o item)
  or_other-some none item = refl
  or_other-some (some x) item = refl

  pub get-found_from :
      (k : String) (found : Dict String (MarketSnapshot F)) (items : List (MarketSnapshot F))
      → get k (found_from found items) ≡ or_other (last_for k items) (get k found)
  get-found_from k found [] = refl
  get-found_from k found (item ∷ items) =
      get-found_from k (set item.symbol item found) items
      ∙ ap (or_other (last_for k items)) (get-set item.symbol k item found)
      ∙ (elim (Bool-cases (item.symbol == k)) [
        | inl e ↦
            let rest = filter (λ (s : MarketSnapshot F). s.symbol == k) items in
            rw (e, last?-cons item rest) (or_other-some (last_for k items) item)
        | inr e ↦ rw e refl
      ])

module _ {F : Type 0} ⦃f : Float F⦄ where
  -- the newest snapshot where a quote came, unless the quote is older
  abbrev pub merged :
      Option (MarketSnapshot F) → Option (MarketSnapshot F) → Option (MarketSnapshot F)
  merged o none = o
  merged o (some x) = some (newer o x)

  -- whether a quote came that is not older than the newest snapshot
  abbrev pub is_fresh : Option (MarketSnapshot F) → Option (MarketSnapshot F) → Bool
  is_fresh none o = false
  is_fresh (some x) o = not (is_older x o)

  pub merged_idem : (o q : Option (MarketSnapshot F)) → merged (merged o q) q ≡ merged o q
  merged_idem o none = refl
  merged_idem none (some x) = ground arith
  merged_idem (some n) (some x) = ground arith

  pub is_fresh-merged :
      (q o : Option (MarketSnapshot F)) → is_fresh q (merged o q) ≡ true → is_fresh q o ≡ true
  is_fresh-merged none o h = h
  is_fresh-merged (some x) none h = refl
  is_fresh-merged (some x) (some n) h = ground arith

  -- a quote, if there is one, that is the symbol's
  abbrev pub IsFor : String → Option (MarketSnapshot F) → Type 0
  IsFor symbol none = Unit
  IsFor symbol (some x) = x.symbol ≡ symbol

  -- what taking the quote of one symbol brings about
  pub record Taken (symbol : String) (o : Option (MarketSnapshot F)) (e d : MarketEngine F)
      : Type 0 where
    pub valid : IsValid d.buffers
    pub newest :
        (k : String)
        → Buffers.latest k d.buffers ≡ (
            if symbol == k
            then merged (Buffers.latest k e.buffers) o
            else Buffers.latest k e.buffers)
    pub fetched : d.fetched_symbols ≡ (
        if is_fresh o (Buffers.latest symbol e.buffers)
        then symbol ∷ e.fetched_symbols
        else e.fetched_symbols)
    pub same_watchlist : d.watchlist ≡ e.watchlist
    pub same_pipeline : d.pipeline ≡ e.pipeline

  module _ (clock : Clock F) where
    untouched :
        (symbol : String) (o : Option (MarketSnapshot F)) (e : MarketEngine F)
        → IsValid e.buffers
        → merged (Buffers.latest symbol e.buffers) o ≡ Buffers.latest symbol e.buffers
        → is_fresh o (Buffers.latest symbol e.buffers) ≡ false
        → (d : MarketEngine F) → d.buffers ≡ e.buffers
        → d.fetched_symbols ≡ e.fetched_symbols
        → d.watchlist ≡ e.watchlist
        → d.pipeline ≡ e.pipeline
        → Taken symbol o e d
    untouched symbol o e v same stale d b g w p = record {
      valid = rw b v;
      newest = λ k. elim (Bool-cases (symbol == k)) [
        | inl q ↦
            let here : symbol ≡ k = (string_eq.beq_iff symbol k).0 q in
            rw (b, q)
              (sym (
                ap (λ j. merged (Buffers.latest j e.buffers) o) (sym here)
                ∙ same
                ∙ ap (λ j. Buffers.latest j e.buffers) here))
        | inr q ↦ rw (b, q) refl
      ];
      fetched = rw stale g;
      same_watchlist = w;
      same_pipeline = p;
    }

    module _ (laws : IsOrdered F) (mono : IsMonotone F) where
      accept_quote-Taken :
          (x : MarketSnapshot F) (previous : FeedStatus) (o : Option (MarketSnapshot F))
          (e : MarketEngine F)
          → IsValid e.buffers
          → is_older x (Buffers.latest x.symbol e.buffers) ≡ false
          → (d : MarketEngine F) × (accept_quote clock x.symbol x previous o e ≡ some d)
            × Taken x.symbol (some x) e d
      unfolding accept_quote record_quote
      accept_quote-Taken x previous o e v h =
          let (t, (added, w, all)) = append_newest laws mono x e.buffers v in
          let c : MarketEngine F = record (count_duplicate clock (is_duplicate x o) e) {
            buffers = t;
          } in
          (
            record_quote clock x.symbol x previous c,
            rw (added, accept_quote) refl,
            record {
              valid = w;
              newest = all;
              fetched = rw h refl;
              same_watchlist = refl;
              same_pipeline = refl;
            },
          )

      older-merged :
          (x : MarketSnapshot F) (o : Option (MarketSnapshot F))
          → is_older x o ≡ true
          → merged o (some x) ≡ o
      older-merged x none h = absurd (ground arith)
      older-merged x (some n) h = rw h refl

      ingest_snapshot-Taken :
          (x : MarketSnapshot F) (e : MarketEngine F)
          → IsValid e.buffers
          → (d : MarketEngine F) × (ingest_snapshot clock x.symbol x e ≡ some d)
            × Taken x.symbol (some x) e d
      unfolding ingest_snapshot suppress observe_failure
      ingest_snapshot-Taken x e v =
          let previous = peek_status (clock.monotonic Moment.peeked x.symbol) x.symbol e.health in
          let latest = Buffers.latest x.symbol e.buffers in
          elim (Bool-cases (is_older x latest)) [
            | inl h ↦ (
              suppress clock x.symbol e,
              rw (h, ingest_snapshot) refl,
              untouched x.symbol (some x) e v (older-merged x latest h) (rw h refl)
                  (suppress clock x.symbol e) refl refl refl refl,
            )
            | inr h ↦
                let (d, r, t) = accept_quote-Taken x previous latest e v h in
                (d, rw (h, ingest_snapshot) r, t)
          ]

      pub take_quote-Taken :
          (symbol : String) (o : Option (MarketSnapshot F)) (e : MarketEngine F)
          → IsValid e.buffers
          → IsFor symbol o
          → (d : MarketEngine F) × (take_quote clock symbol o e ≡ some d) × Taken symbol o e d
      unfolding take_quote observe_failure
      take_quote-Taken symbol none e v h = (
        observe_failure clock symbol e,
        refl,
        untouched symbol none e v refl refl (observe_failure clock symbol e) refl refl refl refl,
      )
      take_quote-Taken symbol (some x) e v h =
          subst
            (λ k.
              (d : MarketEngine F) × (ingest_snapshot clock k x e ≡ some d) × Taken k (some x) e d)
            h (ingest_snapshot-Taken x e v)
