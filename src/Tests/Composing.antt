-- ===== src/Tests/Composing.antt =====
-- Tests of the priority, the composer and the pipeline.
use text.Mathlib.TextLemmas.{length-nil, length-cons}
use Prim.Native.String.{count, ◌∷◌ as cons_char}
use market_sentinel.Base.{
  true, ℕ, zero, suc, String, ◌≡◌, refl, sym, ap, ◌∙◌, none, some, List, [], ◌∷◌, arith,
}
use market_sentinel.Base.Eq.{string_eq}
use market_sentinel.Base.Dict.{get, set}
use market_sentinel.Base.Float.{Micro, Micro-IsMonotone, micro_float, num}
use market_sentinel.Domain.{
  EventType, EventDirection, SignalPriority, priority_rank, MarketEvent, Signal, SignalTrace,
  Family, GeneratedBy, SignalPipelineResult,
}
use market_sentinel.Events.{max_nat}
use market_sentinel.Cluster.{classify_family}
use market_sentinel.Cooldown.{CooldownGate}
use market_sentinel.Priority.{Formats, compose_priority, priority_from_severity}
use market_sentinel.Priority.Floor.{rank_of, highest, floor, compose_priority_lem}
use market_sentinel.Composer.{SignalComposer, key_eq}
use market_sentinel.Composer.Batch.{Produced, contains_id, consume_batch, consume}
use market_sentinel.Composer.Valid.{IsValid}
use market_sentinel.Composer.Consumed.{consume_batch-IsValid}
use market_sentinel.Composer.Consume.{consume-Found}
use market_sentinel.Pipeline.{SignalPipeline, admit_alerts, process}
use market_sentinel.Pipeline.Processed.{TracedBy, Once, process-IsValid}
use market_sentinel.Tests.{event_at, moving}

-- identifiers that never repeat
pub uuid : ℕ → String
uuid zero = ""
uuid (suc n) = cons_char "i" (uuid n)

count-uuid : (n : ℕ) → count (uuid n) ≡ n
unfolding uuid
count-uuid zero = length-nil
count-uuid (suc n) = length-cons "i" (uuid n) ∙ ap suc (count-uuid n)

pub uuid_unique : (i j : ℕ) → uuid i ≡ uuid j → i ≡ j
uuid_unique i j e = sym (count-uuid i) ∙ ap count e ∙ count-uuid j

abbrev pub formats : Formats Micro
formats = record { int_text = λ n. "5"; two_decimals = λ x. "1.00"; signed_decimals = λ x. "+1.00" }

abbrev up_move : MarketEvent Micro
up_move = event_at "e1" EventType.rapid_move EventDirection.up 3 100

abbrev spike : MarketEvent Micro
spike = event_at "e2" EventType.volume_spike EventDirection.flat 2 100

compose_priority_lem_example :
    (p : SignalPriority × String) × (compose_priority formats
        (up_move ∷ spike ∷ [])
        (classify_family (up_move ∷ spike ∷ []))
      ≡ some p)
    × (rank_of p
        ≡ max_nat
            (highest (priority_rank (priority_from_severity 3)) (spike ∷ []))
            (priority_rank (floor (classify_family (up_move ∷ spike ∷ [])))))
compose_priority_lem_example = compose_priority_lem formats up_move (spike ∷ [])

abbrev pub composer : SignalComposer Micro
composer = record {
  lookback_s = num 90;
  accepted = [];
  active = [];
  traces = [];
  home = [];
  made = 0;
}

pub composer-IsValid : IsValid uuid composer
unfolding get
composer-IsValid = record {
  unique = tt;
  keyed = λ k s e. absurd (ground arith);
  made_before = λ k s e. absurd (ground arith);
  distinct = λ k j s t e q same. absurd (ground arith);
  traced = λ k s e. absurd (ground arith);
}

consume_batch-IsValid_example :
    (p : List (Produced Micro)) × (d : SignalComposer Micro) × (consume_batch uuid formats
        (num 101)
        (up_move ∷ spike ∷ [])
        moving
        composer
      ≡ some (p, d))
    × IsValid uuid d
consume_batch-IsValid_example =
    consume_batch-IsValid uuid uuid_unique formats (num 101) (up_move ∷ spike ∷ []) moving composer
      composer-IsValid

abbrev gate : CooldownGate Micro
gate = record { cooldown_s = num 300; last = [] }

abbrev pub pipeline : SignalPipeline Micro
pipeline = record { deduper = record { records = [] }; composer = composer; cooldown = gate }

process-IsValid_example :
    (r : SignalPipelineResult Micro) × (q : SignalPipeline Micro) × (process uuid formats
        (num 501)
        (num 7)
        none
        moving
        pipeline
      ≡ some (r, q))
    × IsValid uuid q.composer
    × TracedBy r.signal_updates r.traces
    × Once r.alert_candidates
process-IsValid_example =
    process-IsValid uuid uuid_unique formats (num 501) (num 7) none moving pipeline composer-IsValid

abbrev pub signal : Signal Micro
signal = record {
  id = "s1";
  event_ids = "e1" ∷ [];
  symbol = "AAA";
  family = Family.move;
  direction = EventDirection.up;
  priority = SignalPriority.notice;
  title = "title";
  summary = "summary";
  generated_by = GeneratedBy.rule;
  market_timestamp = num 100;
  received_timestamp = num 100;
  detected_timestamp = num 100;
  signal_created_timestamp = num 101;
  expires_at = none;
}

abbrev pub trace : SignalTrace Micro
trace = record {
  signal_id = "s1";
  event_ids = "e1" ∷ [];
  rule_names = "rapid_move" ∷ [];
  features = moving;
  family = Family.move;
  direction = EventDirection.up;
  priority = SignalPriority.notice;
  priority_reason = "reason";
  detected_timestamp = num 100;
  signal_created_timestamp = num 101;
}

abbrev twice : List (Produced Micro)
twice = (signal, trace) ∷ (signal, trace) ∷ []

one_alert : (admit_alerts (num 7) [] twice gate).0 ≡ signal ∷ []
unfolding admit_alerts get set
one_alert = refl

homeless : get up_move.id composer.home ≡ none
unfolding get
homeless = refl

consume-Found_example :
    (p : Produced Micro) × (d : SignalComposer Micro) × (consume uuid formats
        (num 101)
        up_move
        moving
        composer
      ≡ some (p, d))
    × (contains_id "e1" p.0.event_ids ≡ true)
consume-Found_example =
    consume-Found uuid uuid_unique formats (num 101) Micro-IsMonotone up_move moving composer
      composer-IsValid homeless refl
