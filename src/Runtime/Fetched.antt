-- ===== src/Runtime/Fetched.antt =====
-- What a whole fetch does, whatever the provider answers.
use market_sentinel.Base.{
  String, ◌≡◌, refl, ap, sym, subst, ◌∙◌, ◌⊎◌, inl, inr, Bool, true, false, ◌||◌, Option, none,
  some, List, [], ◌∷◌, if◌then◌else◌, any, filter, All-filter_test, All-last?, Bool-cases,
  Option-cases,
}
use market_sentinel.Base.Eq.{string_eq, ◌==◌}
use market_sentinel.Base.Dict.{Dict, get}
use market_sentinel.Base.Float.{Float, IsOrdered, IsMonotone}
use market_sentinel.Domain.{MarketSnapshot}
use market_sentinel.Buffers
use market_sentinel.Buffers.Newest.{IsValid}
use market_sentinel.Runtime.{Clock, Answer, exhausted, failed, quotes, MarketEngine}
use market_sentinel.Runtime.Fetch.{
  is_fetched, found_from, observe_failure, mark, take_all, keep_all, fail_all, with_error,
  fetch_due,
}
use market_sentinel.Runtime.Newest.{
  last_for, quote_for, get-found_from, merged, is_fresh, merged_idem, is_fresh-merged, IsFor, Taken,
  take_quote-Taken,
}

-- `k in symbols`
abbrev pub is_in : String → List String → Bool
is_in k symbols = any (λ j. j == k) symbols

-- a symbol that is counted as fetched after its quote was taken
Fetched-once :
    (a : Bool) (k symbol : String) (before after : List String)
    → after ≡ (if a then symbol ∷ before else before)
    → is_fetched k after ≡ true
    → (is_fetched k before ≡ true) ⊎ ((symbol ≡ k) × (a ≡ true))
Fetched-once false k symbol before after h m = inl (ap (is_fetched k) (sym h) ∙ m)
Fetched-once true k symbol before after h m = elim (Bool-cases (symbol == k)) [
  | inl e ↦ inr ((string_eq.beq_iff symbol k).0 e, refl)
  | inr e ↦ inl (rw e at (ap (is_fetched k) (sym h) ∙ m))
]

module _ {F : Type 0} ⦃f : Float F⦄ where
  -- what a fetch for some symbols brings about, where `q` gives the quote of each
  pub record Fetched (q : String → Option (MarketSnapshot F)) (symbols : List String)
      (e d : MarketEngine F) : Type 0 where
    pub valid : IsValid d.buffers
    pub newest :
        (k : String)
        → Buffers.latest k d.buffers ≡ (
            if is_in k symbols
            then merged (Buffers.latest k e.buffers) (q k)
            else Buffers.latest k e.buffers)
    pub fetched :
        (k : String)
        → is_fetched k d.fetched_symbols ≡ true
        → (is_fetched k e.fetched_symbols ≡ true)
          ⊎ (is_fresh (q k) (Buffers.latest k e.buffers) ≡ true)
    pub same_watchlist : d.watchlist ≡ e.watchlist
    pub same_pipeline : d.pipeline ≡ e.pipeline

  newest_twice :
      (a b : Bool) (p o l m : Option (MarketSnapshot F))
      → m ≡ (if a then merged o p else o)
      → l ≡ (if b then merged m p else m)
      → l ≡ (if a || b then merged o p else o)
  newest_twice true true p o l m h k = k ∙ ap (λ z. merged z p) h ∙ merged_idem o p
  newest_twice true false p o l m h k = k ∙ h
  newest_twice false true p o l m h k = k ∙ ap (λ z. merged z p) h
  newest_twice false false p o l m h k = k ∙ h

  fresh_before :
      (a : Bool) (p o m : Option (MarketSnapshot F))
      → m ≡ (if a then merged o p else o)
      → is_fresh p m ≡ true
      → is_fresh p o ≡ true
  fresh_before true p o m h k = is_fresh-merged p o (ap (is_fresh p) (sym h) ∙ k)
  fresh_before false p o m h k = ap (is_fresh p) (sym h) ∙ k

  Taken-newest :
      (q : String → Option (MarketSnapshot F)) (symbol : String) (e c : MarketEngine F)
      → Taken symbol (q symbol) e c
      → (k : String)
      → Buffers.latest k c.buffers ≡ (
          if symbol == k
          then merged (Buffers.latest k e.buffers) (q k)
          else Buffers.latest k e.buffers)
  Taken-newest q symbol e c one k = elim (Bool-cases (symbol == k)) [
    | inl h ↦
        subst
          (λ j. Buffers.latest k c.buffers ≡ (
            if symbol == k
            then merged (Buffers.latest k e.buffers) (q j)
            else Buffers.latest k e.buffers))
          ((string_eq.beq_iff symbol k).0 h) (one.newest k)
    | inr h ↦ rw h (rw h at (one.newest k))
  ]

  chained :
      (clock : Clock F) (q : String → Option (MarketSnapshot F)) (symbol : String)
      (symbols : List String) (e c d : MarketEngine F)
      → Taken symbol (q symbol) e c
      → Fetched q symbols (mark clock symbol c) d
      → Fetched q (symbol ∷ symbols) e d
  unfolding mark
  chained clock q symbol symbols e c d one rest = record {
    valid = rest.valid;
    newest = λ k.
        newest_twice (symbol == k) (is_in k symbols) (q k) (Buffers.latest k e.buffers)
          (Buffers.latest k d.buffers) (Buffers.latest k c.buffers)
          (Taken-newest q symbol e c one k) (rest.newest k);
    fetched = λ k h. elim (rest.fetched k h) [
      | inl old ↦
          elim (Fetched-once (is_fresh (q symbol) (Buffers.latest symbol e.buffers)) k symbol
            e.fetched_symbols c.fetched_symbols one.fetched old) [
              | inl p ↦ inl p
              | inr (same, fresh) ↦
                  inr (subst (λ j. is_fresh (q j) (Buffers.latest j e.buffers) ≡ true) same fresh)
            ]
      | inr fresh ↦ inr (
          fresh_before (symbol == k) (q k) (Buffers.latest k e.buffers) (Buffers.latest k c.buffers)
            (Taken-newest q symbol e c one k) fresh)
    ];
    same_watchlist = rest.same_watchlist ∙ one.same_watchlist;
    same_pipeline = rest.same_pipeline ∙ one.same_pipeline;
  }

  -- nothing fetched
  unfetched :
      (q : String → Option (MarketSnapshot F)) (symbols : List String) (e d : MarketEngine F)
      → IsValid e.buffers
      → ((k : String) → q k ≡ none)
      → d.buffers ≡ e.buffers
      → d.fetched_symbols ≡ e.fetched_symbols
      → d.watchlist ≡ e.watchlist
      → d.pipeline ≡ e.pipeline
      → Fetched q symbols e d
  unfetched q symbols e d v absent b g w p = record {
    valid = rw b v;
    newest = λ k. elim (Bool-cases (is_in k symbols)) [
      | inl h ↦ rw (b, h, absent k) refl
      | inr h ↦ rw (b, h) refl
    ];
    fetched = λ k h. inl (ap (is_fetched k) (sym g) ∙ h);
    same_watchlist = w;
    same_pipeline = p;
  }

  -- what the loops without a quote leave alone
  abbrev Kept : MarketEngine F → MarketEngine F → Type 0
  Kept e d =
      (d.buffers ≡ e.buffers)
      × (d.fetched_symbols ≡ e.fetched_symbols)
      × (d.watchlist ≡ e.watchlist)
      × (d.pipeline ≡ e.pipeline)

  Kept-keep_all :
      (clock : Clock F) (symbols : List String) (e : MarketEngine F)
      → Kept e (keep_all clock symbols e)
  unfolding keep_all mark
  Kept-keep_all clock [] e = (refl, refl, refl, refl)
  Kept-keep_all clock (symbol ∷ symbols) e = Kept-keep_all clock symbols _

  Kept-fail_all :
      (clock : Clock F) (symbols : List String) (e : MarketEngine F)
      → Kept e (fail_all clock symbols e)
  unfolding fail_all mark observe_failure
  Kept-fail_all clock [] e = (refl, refl, refl, refl)
  Kept-fail_all clock (symbol ∷ symbols) e = Kept-fail_all clock symbols _

  module _ (clock : Clock F) (laws : IsOrdered F) (mono : IsMonotone F) where
    take_all-Fetched :
        (found : Dict String (MarketSnapshot F)) (symbols : List String) (e : MarketEngine F)
        → IsValid e.buffers
        → ((k : String) → IsFor k (get k found))
        → (d : MarketEngine F) × (take_all clock found symbols e ≡ some d)
          × Fetched (λ k. get k found) symbols e d
    unfolding take_all mark
    take_all-Fetched found [] e v h = (
      e,
      refl,
      record {
        valid = v;
        newest = λ k. refl;
        fetched = λ k g. inl g;
        same_watchlist = refl;
        same_pipeline = refl;
      },
    )
    take_all-Fetched found (symbol ∷ symbols) e v h =
        let (c, r, one) =
          take_quote-Taken clock laws mono symbol (get symbol found) e v (h symbol) in
        let (d, s, rest) = take_all-Fetched found symbols (mark clock symbol c) one.valid h in
        (d, rw (r, take_all) s, chained clock (λ k. get k found) symbol symbols e c d one rest)

    found_from-IsFor :
        (k : String) (items : List (MarketSnapshot F)) → IsFor k (get k (found_from [] items))
    unfolding get
    found_from-IsFor k items = elim (Option-cases (last_for k items)) [
      | inl e ↦ rw (get-found_from k [] items, e) tt
      | inr (x, e) ↦
          let own = λ (s : MarketSnapshot F). s.symbol == k in
          rw (get-found_from k [] items, e)
            ((string_eq.beq_iff x.symbol k).0
              (All-last? (λ s. own s ≡ true) (filter own items) x (All-filter_test own items) e))
    ]

    get-quotes :
        (k : String) (items : List (MarketSnapshot F))
        → get k (found_from [] items) ≡ quote_for k (quotes items)
    unfolding get
    get-quotes k items = elim (Option-cases (last_for k items)) [
      | inl e ↦ rw (get-found_from k [] items, e) refl
      | inr (x, e) ↦ rw (get-found_from k [] items, e) refl
    ]

    pub fetch_due-Fetched :
        (answer : Answer F) (symbols : List String) (e : MarketEngine F)
        → IsValid e.buffers
        → (d : MarketEngine F) × (fetch_due clock answer symbols e ≡ some d)
          × Fetched (λ k. quote_for k answer) symbols e d
    unfolding fetch_due
    fetch_due-Fetched exhausted symbols e v =
        let d = keep_all clock symbols e in
        let (b, g, w, p) = Kept-keep_all clock symbols e in
        (d, refl, unfetched (λ k. none) symbols e d v (λ k. refl) b g w p)
    fetch_due-Fetched (failed name) symbols e v =
        let c = with_error clock (some name) e in
        let d = fail_all clock symbols c in
        let (b, g, w, p) = Kept-fail_all clock symbols c in
        (d, refl, unfetched (λ k. none) symbols e d v (λ k. refl) b g w p)
    fetch_due-Fetched (quotes items) symbols e v =
        let found = found_from [] items in
        let c = with_error clock none e in
        let (d, r, h) = take_all-Fetched found symbols c v (λ k. found_from-IsFor k items) in
        (
          d,
          r,
          record {
            valid = h.valid;
            newest = λ k. h.newest k ∙ (rw (get-quotes k items) refl);
            fetched = λ k m. rw (get-quotes k items) at (h.fetched k m);
            same_watchlist = h.same_watchlist;
            same_pipeline = h.same_pipeline;
          },
        )
