-- ===== src/Pipeline.antt =====
-- src/market_sentinel/signals/pipeline.py: detect, dedupe, compose, and let alerts through. The rows for
-- the telemetry, which nothing reads back, are left out. `now` is the wall clock and `mono` the
-- monotonic one; the detector's calls of `uuid4` count with the composer's. `none` is an exception.
pub mod Processed
use market_sentinel.Base.{
  ℕ, String, Bool, true, false, Option, none, some, List, [], ◌∷◌, ◌++◌, if◌then◌else◌,
}
use market_sentinel.Base.Float.{Float}
use market_sentinel.Domain.{MarketEvent, MarketFeatures, Signal, SignalTrace, SignalPipelineResult}
use market_sentinel.Events.Detector.{evaluate}
use market_sentinel.Dedupe.{EventDeduper, accept_all}
use market_sentinel.Cooldown.{CooldownGate, allow}
use market_sentinel.Priority.{Formats}
use market_sentinel.Composer.{SignalComposer, prune}
use market_sentinel.Composer.Batch.{Produced, contains_id, consume_batch}
use market_sentinel.Composer.Rows.{active_signals, trace_for}

pub record SignalPipeline (F : Type 0) : Type 0 where
  pub deduper : EventDeduper F
  pub composer : SignalComposer F
  pub cooldown : CooldownGate F

module _ {F : Type 0} where
  -- `tuple(self.composer.trace_for(item.id) for item in signal_updates)`
  abbrev pub traces_for : List (Signal F) → SignalComposer F → Option (List (SignalTrace F))
  traces_for [] c = some []
  traces_for (s ∷ ss) c = elim (trace_for s.id c) [
    | none ↦ none
    | some t ↦ elim (traces_for ss c) [ none ↦ none | some ts ↦ some (t ∷ ts) ]
  ]

  -- the result of `process`, where all the traces are there
  abbrev pub result_with :
      List (MarketEvent F)
      → List (Signal F)
      → List (Signal F)
      → SignalPipeline F
      → Option (List (SignalTrace F))
      → Option (SignalPipelineResult F × SignalPipeline F)
  result_with accepted updates alerts p none = none
  result_with accepted updates alerts p (some traces) = some (
    record {
      accepted_events = accepted;
      signal_updates = updates;
      traces = traces;
      alert_candidates = alerts;
    },
    p,
  )

module _ {F : Type 0} ⦃f : Float F⦄ where
  -- one turn of the loop over the produced signals: the alert, if any, and the identifiers seen
  unfoldable pub admit_one :
      F → List String → Signal F → CooldownGate F → List (Signal F) × (List String × CooldownGate F)
  unfolding allow
  admit_one mono seen signal g =
      let (yes_, g') = allow mono signal.id signal.priority g in
      if contains_id signal.id seen
      then ([], (seen, g))
      else (if yes_ then signal ∷ [] else [], (signal.id ∷ seen, g'))

  unfoldable pub admit_alerts :
      F → List String → List (Produced F) → CooldownGate F → List (Signal F) × CooldownGate F
  unfolding admit_one
  admit_alerts mono seen [] g = ([], g)
  admit_alerts mono seen ((signal, trace) ∷ produced) g =
      let (alert, (seen', g')) = admit_one mono seen signal g in
      let (rest, last) = admit_alerts mono seen' produced g' in (alert ++ rest, last)

module _ {F : Type 0} ⦃f : Float F⦄ (uuid : ℕ → String) (fmt : Formats F) (now mono : F) where
  -- the composer's turn
  abbrev pub produce :
      List (MarketEvent F)
      → MarketFeatures F
      → SignalComposer F
      → Option (List (Produced F) × SignalComposer F)
  produce [] current c = some ([], prune current.symbol current.market_timestamp c)
  produce (e ∷ es) current c = consume_batch uuid fmt now (e ∷ es) current c

  -- `process`, after the composer
  unfoldable pub conclude :
      List (MarketEvent F)
      → MarketFeatures F
      → EventDeduper F
      → CooldownGate F
      → List (Produced F) × SignalComposer F
      → Option (SignalPipelineResult F × SignalPipeline F)
  unfolding admit_alerts active_signals trace_for
  conclude accepted current deduper cooldown (produced, c) =
      let updates = active_signals current.symbol c in
      let (alerts, gate) = admit_alerts mono [] produced cooldown in
      result_with accepted updates alerts
        (record { deduper = deduper; composer = c; cooldown = gate }) (traces_for updates c)

  unfoldable pub process :
      Option (MarketFeatures F)
      → MarketFeatures F
      → SignalPipeline F
      → Option (SignalPipelineResult F × SignalPipeline F)
  unfolding conclude evaluate accept_all consume_batch prune
  process previous current p =
      let (events, last) = evaluate uuid previous current now p.composer.made in
      let (accepted, deduper) = accept_all events p.deduper in
      elim (produce accepted current (record p.composer { made = last })) [
        | none ↦ none
        | some out ↦ conclude accepted current deduper p.cooldown out
      ]
