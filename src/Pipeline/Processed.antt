-- ===== src/Pipeline/Processed.antt =====
-- A tick's features always go through the pipeline, and what comes out fits together.
use market_sentinel.Base.{
  ℕ, String, ◌≡◌, refl, false, Option, some, List, [], ◌∷◌, arith, All, All-map_imp, Bool-cases,
  inl, inr,
}
use market_sentinel.Base.Eq.{string_eq, ◌==◌}
use market_sentinel.Base.Dict.{Dict, values}
use market_sentinel.Base.Float.{Float}
use market_sentinel.Domain.{MarketEvent, MarketFeatures, Signal, SignalTrace, SignalPipelineResult}
use market_sentinel.Events.Detector.{evaluate}
use market_sentinel.Events.Shape.{evaluate_lem}
use market_sentinel.Dedupe.{EventDeduper, accept_all}
use market_sentinel.Cooldown.{CooldownGate, allow}
use market_sentinel.Priority.{Formats}
use market_sentinel.Composer.{EpisodeKey, key_eq, SignalComposer, prune}
use market_sentinel.Composer.Batch.{Produced, contains_id}
use market_sentinel.Composer.Rows.{
  active_signals, trace_for, insert_row, rows_of, signals_of, row_le,
}
use market_sentinel.Composer.Valid.{IsValid, Traced, later-IsValid, All-values}
use market_sentinel.Composer.Pruning.{prune-IsValid}
use market_sentinel.Composer.Consumed.{consume_batch-IsValid}
use market_sentinel.Pipeline.{
  SignalPipeline, traces_for, admit_one, admit_alerts, produce, conclude, process,
}

module _ {F : Type 0} where
  -- each signal has its trace, at the same place
  abbrev pub TracedBy : List (Signal F) → List (SignalTrace F) → Type 0
  TracedBy [] [] = Unit
  TracedBy (s ∷ ss) (t ∷ ts) = (t.signal_id ≡ s.id) × (t.event_ids ≡ s.event_ids) × TracedBy ss ts
  TracedBy _ _ = ⊥

  -- no identifier stands twice
  abbrev pub Once : List (Signal F) → Type 0
  Once [] = Unit
  Once (s ∷ ss) = All (λ (t : Signal F). (s.id == t.id) ≡ false) ss × Once ss

  traces_for-TracedBy :
      (ss : List (Signal F)) (c : SignalComposer F)
      → All (λ s. Traced s c) ss
      → (ts : List (SignalTrace F)) × (traces_for ss c ≡ some ts) × TracedBy ss ts
  unfolding trace_for
  traces_for-TracedBy [] c h = ([], refl, tt)
  traces_for-TracedBy (s ∷ ss) c ((t, found, same_id, same_events), h) =
      let (ts, e, r) = traces_for-TracedBy ss c h in
      (t ∷ ts, rw (found, e, traces_for) refl, (same_id, same_events, r))

  All-insert_row :
      (P : Signal F → Type 0) (r : EpisodeKey × Signal F) (rows : List (EpisodeKey × Signal F))
      → P r.1
      → All P (signals_of rows)
      → All P (signals_of (insert_row r rows))
  unfolding insert_row
  All-insert_row P r [] p h = (p, tt)
  All-insert_row P r (q ∷ qs) p (h, hs) = elim (Bool-cases (row_le r q)) [
    | inl e ↦ rw (e, insert_row) (p, (h, hs))
    | inr e ↦ rw (e, insert_row) (h, All-insert_row P r qs p hs)
  ]

  All-rows_of :
      (P : Signal F → Type 0) (symbol : String) (d : Dict EpisodeKey (Signal F))
      → All P (values d)
      → All P (signals_of (rows_of symbol d))
  unfolding rows_of
  All-rows_of P symbol [] h = tt
  All-rows_of P symbol ((k, s) ∷ d) (h, hs) = elim (Bool-cases (k.symbol == symbol)) [
    | inl e ↦
        rw (e, rows_of) (All-insert_row P (k, s) (rows_of symbol d) h (All-rows_of P symbol d hs))
    | inr e ↦ rw (e, rows_of) (All-rows_of P symbol d hs)
  ]

  active_signals-Traced :
      (uuid : ℕ → String) (symbol : String) (c : SignalComposer F)
      → IsValid uuid c
      → All (λ s. Traced s c) (active_signals symbol c)
  unfolding active_signals
  active_signals-Traced uuid symbol c v =
      All-rows_of (λ s. Traced s c) symbol c.active
        (All-values (λ s. Traced s c) c.active v.unique v.traced)

  abbrev Unseen : List String → Signal F → Type 0
  Unseen seen s = contains_id s.id seen ≡ false

  Unseen-tail :
      (id : String) (seen : List String) (s : Signal F)
      → Unseen (id ∷ seen) s
      → Unseen seen s × ((id == s.id) ≡ false)
  Unseen-tail id seen s h = ground arith

module _ {F : Type 0} ⦃f : Float F⦄ where
  -- The alerts that one batch of signals leads to have different identifiers, and none of those that
  -- were seen before.
  pub admit_alerts-Once :
      (mono : F) (seen : List String) (produced : List (Produced F)) (g : CooldownGate F)
      → All (λ (s : Signal F). contains_id s.id seen ≡ false) (admit_alerts mono seen produced g).0
        × Once (admit_alerts mono seen produced g).0
  unfolding admit_alerts admit_one
  admit_alerts-Once mono seen [] g = (tt, tt)
  admit_alerts-Once mono seen ((signal, trace) ∷ produced) g =
      elim (Bool-cases (contains_id signal.id seen)) [
        | inl e ↦ rw (e, admit_one) (admit_alerts-Once mono seen produced g)
        | inr e ↦
            let now_seen = signal.id ∷ seen in
            let g' = (allow mono signal.id signal.priority g).1 in
            let rest = (admit_alerts mono now_seen produced g').0 in
            let (new, once) = admit_alerts-Once mono now_seen produced g' in
            let old : All (Unseen seen) rest =
              All-map_imp (Unseen now_seen) (Unseen seen) rest
                (λ s h. (Unseen-tail signal.id seen s h).0) new in
            let other : All (λ (t : Signal F). (signal.id == t.id) ≡ false) rest =
              All-map_imp (Unseen now_seen) (λ (t : Signal F). (signal.id == t.id) ≡ false) rest
                (λ s h. (Unseen-tail signal.id seen s h).1) new in
            elim (Bool-cases (allow mono signal.id signal.priority g).0) [
              | inl yes_ ↦ rw (e, yes_, admit_one) ((e, old), (other, once))
              | inr no_ ↦ rw (e, no_, admit_one) (old, once)
            ]
      ]

module _ {F : Type 0} ⦃f : Float F⦄ (uuid : ℕ → String)
    (unique : (i j : ℕ) → uuid i ≡ uuid j → i ≡ j) (fmt : Formats F) (now mono : F) where
  produce-IsValid :
      (accepted : List (MarketEvent F)) (current : MarketFeatures F) (c : SignalComposer F)
      → IsValid uuid c
      → (p : List (Produced F)) × (d : SignalComposer F) × (produce uuid fmt now mono accepted
            current c
          ≡ some (p, d))
        × IsValid uuid d
  produce-IsValid [] current c v = (
    [],
    prune current.symbol current.market_timestamp c,
    refl,
    prune-IsValid uuid current.symbol current.market_timestamp c v,
  )
  produce-IsValid (e ∷ es) current c v =
      consume_batch-IsValid uuid unique fmt now (e ∷ es) current c v

  conclude-IsValid :
      (accepted : List (MarketEvent F)) (current : MarketFeatures F) (deduper : EventDeduper F)
      (cooldown : CooldownGate F) (produced : List (Produced F)) (d : SignalComposer F)
      → IsValid uuid d
      → (r : SignalPipelineResult F) × (q : SignalPipeline F) × (conclude uuid fmt now mono accepted
            current deduper cooldown
            (produced, d)
          ≡ some (r, q))
        × IsValid uuid q.composer
        × TracedBy r.signal_updates r.traces
        × Once r.alert_candidates
  unfolding conclude
  conclude-IsValid accepted current deduper cooldown produced d w =
      let updates = active_signals current.symbol d in
      let (ts, found, fits) =
        traces_for-TracedBy updates d (active_signals-Traced uuid current.symbol d w) in
      let (alerts, gate) = admit_alerts mono [] produced cooldown in
      (
        record {
          accepted_events = accepted;
          signal_updates = updates;
          traces = ts;
          alert_candidates = alerts;
        },
        record { deduper = deduper; composer = d; cooldown = gate },
        rw (found, conclude) refl,
        w,
        fits,
        (admit_alerts-Once mono [] produced cooldown).1,
      )

  -- With identifiers that never repeat and a well-formed composer, `process` raises nothing for any
  -- features, and leaves a well-formed composer; each signal that it reports has its own trace, with
  -- the same events, and no two of its alerts have the same identifier.
  pub process-IsValid :
      (previous : Option (MarketFeatures F)) (current : MarketFeatures F) (p : SignalPipeline F)
      → IsValid uuid p.composer
      → (r : SignalPipelineResult F) × (q : SignalPipeline F) × (process uuid fmt now mono previous
            current p
          ≡ some (r, q))
        × IsValid uuid q.composer
        × TracedBy r.signal_updates r.traces
        × Once r.alert_candidates
  unfolding process
  process-IsValid previous current p v =
      let (events, last) = evaluate uuid previous current now p.composer.made in
      let (accepted, deduper) = accept_all events p.deduper in
      let (own, types, ids, count) = evaluate_lem uuid previous current now p.composer.made in
      let c : SignalComposer F = record p.composer { made = last } in
      let (produced, d, e, w) =
        produce-IsValid accepted current c
          (later-IsValid uuid last p.composer (omega (arith, count)) v) in
      let (r, q, answer, valid, fits, once) =
        conclude-IsValid accepted current deduper p.cooldown produced d w in
      (r, q, rw (e, process) answer, valid, fits, once)
