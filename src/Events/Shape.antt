-- ===== src/Events/Shape.antt =====
-- What the detector's events have in common: where they come from, their order, and their identifiers.
use market_sentinel.Base.{
  ℕ, suc, ◌+◌, ◌≤◌, String, ◌≡◌, refl, sym, subst, Bool, Option, none, some, List, [], ◌∷◌, ◌++◌,
  arith, All, length,
}
use market_sentinel.Base.Float.{Float, sub, div}
use market_sentinel.Domain.{type_index, type_value, MarketEvent, MarketFeatures}
use market_sentinel.Events.{dedupe_key, build_event, rapid_move_severity, volume_spike_severity}
use market_sentinel.Events.Rules.{
  rapid_move_rule, volume_spike_rule, price_volume_expansion_rule, day_high_breakout_rule,
  day_low_breakdown_rule, vwap_cross_rule, rapid_move_at, volume_spike_at, expansion_at,
  breakout_at, breakdown_at, cross_at,
}
use market_sentinel.Events.Detector.{Rule, default_rules, run_rules, evaluate}
use market_sentinel.Events.Severity.{
  rapid_move_severity_bounds, volume_spike_severity_bounds, breakout_severity_bounds,
}

module _ {F : Type 0} ⦃f : Float F⦄ where
  -- an event of these features at this time
  pub record IsFrom (c : MarketFeatures F) (now : F) (e : MarketEvent F) : Type 0 where
    pub symbol : e.symbol ≡ c.symbol
    pub market_time : e.market_timestamp ≡ c.market_timestamp
    pub received_time : e.received_timestamp ≡ c.received_timestamp
    pub detected_time : e.detected_timestamp ≡ now
    pub severity_ge : 2 ≤ e.severity
    pub severity_le : e.severity ≤ 5
    pub key : e.dedupe_key ≡ dedupe_key e.symbol e.type e.direction
    pub rule : e.rule_name ≡ type_value e.type

  -- nothing, or one event of the k-th type with the given identifier
  abbrev Emits : MarketFeatures F → F → ℕ → String → List (MarketEvent F) → Type 0
  Emits c now k id [] = Unit
  Emits c now k id (e ∷ []) = (e.id ≡ id) × (type_index e.type ≡ k) × IsFrom c now e
  Emits c now k id (e ∷ (d ∷ es)) = ⊥

  rapid_move-Emits :
      (id : String) (c : MarketFeatures F) (now : F) → Emits c now 0 id (rapid_move_rule id c now)
  unfolding rapid_move_rule
  rapid_move-Emits id c now =
      by_severity (rapid_move_severity c.change_1m c.change_5m)
        (rapid_move_severity_bounds c.change_1m c.change_5m)
    where
      by_severity :
          (o : Option ℕ)
          → ((s : ℕ) → o ≡ some s → (2 ≤ s) × (s ≤ 5))
          → Emits c now 0 id (rapid_move_at id c now o)
      by_severity none h = tt
      by_severity (some s) h = unfold build_event in ground (arith, h s refl)

  volume_spike-Emits :
      (id : String) (c : MarketFeatures F) (now : F) → Emits c now 1 id (volume_spike_rule id c now)
  unfolding volume_spike_rule
  volume_spike-Emits id c now =
      by_severity (volume_spike_severity c.volume_ratio_1m c.volume_ratio_5m)
        (volume_spike_severity_bounds c.volume_ratio_1m c.volume_ratio_5m)
    where
      by_severity :
          (o : Option ℕ)
          → ((s : ℕ) → o ≡ some s → (2 ≤ s) × (s ≤ 5))
          → Emits c now 1 id (volume_spike_at id c now o)
      by_severity none h = tt
      by_severity (some s) h = unfold build_event in ground (arith, h s refl)

  expansion-Emits :
      (id : String) (c : MarketFeatures F) (now : F)
      → Emits c now 2 id (price_volume_expansion_rule id c now)
  unfolding price_volume_expansion_rule
  expansion-Emits id c now =
      by_severity (rapid_move_severity c.change_1m c.change_5m)
        (volume_spike_severity c.volume_ratio_1m c.volume_ratio_5m)
    where
      by_severity : (m v : Option ℕ) → Emits c now 2 id (expansion_at id c now m v)
      by_severity none v = tt
      by_severity (some m) none = tt
      by_severity (some m) (some v) = unfold build_event in ground arith

  breakout-Emits :
      (id : String) (c : MarketFeatures F) (now : F)
      → Emits c now 3 id (day_high_breakout_rule id c now)
  unfolding day_high_breakout_rule build_event
  breakout-Emits id c now = by_ref c.session_high_ref
    where
      by_ref : (o : Option F) → Emits c now 3 id (breakout_at id c now o)
      by_ref none = tt
      by_ref (some ref) =
          ground (arith, breakout_severity_bounds (div (sub c.session_high_obs ref) ref))

  breakdown-Emits :
      (id : String) (c : MarketFeatures F) (now : F)
      → Emits c now 4 id (day_low_breakdown_rule id c now)
  unfolding day_low_breakdown_rule build_event
  breakdown-Emits id c now = by_ref c.session_low_ref
    where
      by_ref : (o : Option F) → Emits c now 4 id (breakdown_at id c now o)
      by_ref none = tt
      by_ref (some ref) =
          ground (arith, breakout_severity_bounds (div (sub ref c.session_low_obs) ref))

  vwap_cross-Emits :
      (id : String) (p : Option (MarketFeatures F)) (c : MarketFeatures F) (now : F)
      → Emits c now 5 id (vwap_cross_rule id p c now)
  unfolding vwap_cross_rule build_event
  vwap_cross-Emits id none c now = tt
  vwap_cross-Emits id (some p) c now = by_sides p.above_vwap c.above_vwap c.vwap
    where
      by_sides : (a b : Option Bool) (v : Option F) → Emits c now 5 id (cross_at id c now a b v)
      by_sides (some a) (some b) (some v) = ground arith
      by_sides (some a) (some b) none = tt
      by_sides (some a) none v = tt
      by_sides none b v = tt

  module _ (p : Option (MarketFeatures F)) (c : MarketFeatures F) (now : F) where
    -- the rules emit the k-th type, the next one, and so on
    abbrev RulesFrom : ℕ → List (Rule F) → Type 0
    RulesFrom k [] = Unit
    RulesFrom k (r ∷ rs) = ((id : String) → Emits c now k id (r id p c now)) × RulesFrom (suc k) rs

    default_rules-RulesFrom : RulesFrom 0 default_rules
    default_rules-RulesFrom = (
      λ id. rapid_move-Emits id c now,
      (
        λ id. volume_spike-Emits id c now,
        (
          λ id. expansion-Emits id c now,
          (
            λ id. breakout-Emits id c now,
            (λ id. breakdown-Emits id c now, (λ id. vwap_cross-Emits id p c now, tt)),
          ),
        ),
      ),
    )

  -- the types stand in the order of the enumeration, from the k-th on, each at most once
  abbrev pub TypesFrom : ℕ → List (MarketEvent F) → Type 0
  TypesFrom k [] = Unit
  TypesFrom k (e ∷ es) = (k ≤ type_index e.type) × TypesFrom (suc (type_index e.type)) es

  -- the identifiers are those of the calls of `uuid4` from the n-th on
  abbrev pub IdsFrom : (ℕ → String) → ℕ → List (MarketEvent F) → Type 0
  IdsFrom uuid n [] = Unit
  IdsFrom uuid n (e ∷ es) = (e.id ≡ uuid n) × IdsFrom uuid (n + 1) es

  TypesFrom-suc : (k : ℕ) (es : List (MarketEvent F)) → TypesFrom (suc k) es → TypesFrom k es
  TypesFrom-suc k [] h = tt
  TypesFrom-suc k (e ∷ es) (h, hs) = (omega arith, hs)

  module _ (uuid : ℕ → String) (p : Option (MarketFeatures F)) (c : MarketFeatures F)
      (now : F) where
    abbrev IsRun : ℕ → ℕ → List (MarketEvent F) × ℕ → Type 0
    IsRun k n (es, last) =
        All (IsFrom c now) es × TypesFrom k es × IdsFrom uuid n es × (last ≡ n + length es)

    -- one rule's events before the others'
    IsRun-cons :
        (k n : ℕ) (es rest : List (MarketEvent F)) (last : ℕ)
        → Emits c now k (uuid n) es
        → IsRun (suc k) (n + length es) (rest, last)
        → IsRun k n (es ++ rest, last)
    IsRun-cons k n [] rest last h (a, t, i, l) = (
      a,
      TypesFrom-suc k rest t,
      subst (λ (m : ℕ). IdsFrom uuid m rest) (omega arith) i,
      omega arith,
    )
    IsRun-cons k n (e ∷ []) rest last (h, q, o) (a, t, i, l) = (
      (o, a),
      (omega arith, subst (λ (m : ℕ). TypesFrom (suc m) rest) (sym q) t),
      (h, i),
      omega arith,
    )
    IsRun-cons k n (e ∷ (d ∷ es)) rest last h r = absurd h

    run_rules-IsRun :
        (k n : ℕ) (rules : List (Rule F))
        → RulesFrom p c now k rules
        → IsRun k n (run_rules uuid rules p c now n)
    unfolding run_rules
    run_rules-IsRun k n [] h = (tt, tt, tt, omega arith)
    run_rules-IsRun k n (r ∷ rs) (h, hs) =
        let es = r (uuid n) p c now in
        let (rest, last) = run_rules uuid rs p c now (n + length es) in
        IsRun-cons k n es rest last (h (uuid n)) (run_rules-IsRun (suc k) (n + length es) rs hs)

    -- Every event that the detector answers carries the features' symbol and times and the time of
    -- detection, a severity from 2 to 5, the key of its symbol, type and direction, and the name of its
    -- rule; the events stand in the order of the event types, at most one of each; and their
    -- identifiers are those of successive calls of `uuid4`, one call for each event.
    pub evaluate_lem :
        (next : ℕ)
        → let (events, last) = evaluate uuid p c now next in
          All (IsFrom c now) events
          × TypesFrom 0 events
          × IdsFrom uuid next events
          × (last ≡ next + length events)
    unfolding evaluate
    evaluate_lem next = run_rules-IsRun 0 next default_rules (default_rules-RulesFrom p c now)
