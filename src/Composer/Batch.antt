-- ===== src/Composer/Batch.antt =====
-- The signals composed from a batch of events: `_compose_episode`, `_events_for_partition`,
-- `_consume_symbol`, `consume_batch`, and the readers of the composer.
use market_sentinel.Base.{
  ℕ, String, Bool, false, not, ◌||◌, ◌&&◌, Option, none, some, List, [], ◌∷◌, ◌++◌, map, filter,
  any, last?, or_else, eqb, if◌then◌else◌,
}
use market_sentinel.Base.Eq.{string_eq, ◌==◌}
use market_sentinel.Base.Dict.{Dict, get, set}
use market_sentinel.Base.Float.{Float, sub, max_of}
use market_sentinel.Domain.{
  EventDirection, direction_eq, GeneratedBy, Lineage, SignalPriority, MarketEvent, MarketFeatures,
  Signal, SignalTrace,
}
use market_sentinel.Cluster.{
  lineage_of, partition_lineage_episodes, resolve_none_target, classify_family, Episode,
}
use market_sentinel.Priority.{Formats, compose_priority, render_copy}
use market_sentinel.Composer.{
  EpisodeKey, lineage_index, key_eq, SignalComposer, Identity, event_ids_of, recent_events,
  prune_active, resolve_identity, set_homes,
}

-- the pairs that the methods answer
abbrev pub Produced : Type 0 → Type 0
Produced F = Signal F × SignalTrace F

-- `stolen_none` and the composer, in the loops of `_consume_symbol`
abbrev pub Working : Type 0 → Type 0
Working F = List EpisodeKey × SignalComposer F

abbrev pub contains_id : String → List String → Bool
contains_id id = any λ i. i == id

abbrev pub is_lineage : Lineage → Lineage → Bool
is_lineage a b = eqb (lineage_index a) (lineage_index b)

-- the test of an event without a direction, by its home
abbrev pub has_place : String → Lineage → EventDirection → Bool → Option EpisodeKey → Bool
has_place symbol lineage none_target in_batch none = in_batch
has_place symbol lineage none_target in_batch (some k) =
    if not (k.symbol == symbol) || not (is_lineage k.lineage lineage)
    then false
    else (k.direction == none_target)
      || ((k.direction == EventDirection.flat) && not (none_target == EventDirection.flat))

module _ {F : Type 0} where
  abbrev pub of_lineage : Lineage → List (MarketEvent F) → List (MarketEvent F)
  of_lineage lineage = filter λ i. is_lineage (lineage_of i.type) lineage

  abbrev pub has_live : String → Lineage → EventDirection → Dict EpisodeKey (Signal F) → Bool
  has_live symbol lineage direction [] = false
  has_live symbol lineage direction ((k, s) ∷ active) =
      (k == record { symbol = symbol; lineage = lineage; direction = direction })
      || has_live symbol lineage direction active

  -- `_events_for_partition`
  unfoldable pub events_for_partition :
      String
      → Lineage
      → List (MarketEvent F)
      → List (MarketEvent F)
      → EventDirection
      → SignalComposer F
      → List (MarketEvent F)
  events_for_partition symbol lineage recent batch none_target c =
      filter
        (λ e.
          not (e.direction == EventDirection.flat)
          || has_place symbol lineage none_target (contains_id e.id (event_ids_of batch))
              (get e.id c.home))
        recent

  -- the signal of an episode, and its trace
  abbrev pub signal_of :
      Identity F
      → EpisodeKey
      → List (MarketEvent F)
      → MarketEvent F
      → SignalPriority
      → String × String
      → Signal F
  signal_of identity key members latest priority (title, summary) = record {
    id = identity.id;
    event_ids = event_ids_of members;
    symbol = key.symbol;
    family = classify_family members;
    direction = key.direction;
    priority = priority;
    title = title;
    summary = summary;
    generated_by = GeneratedBy.rule;
    market_timestamp = latest.market_timestamp;
    received_timestamp = latest.received_timestamp;
    detected_timestamp = latest.detected_timestamp;
    signal_created_timestamp = identity.created_at;
    expires_at = none;
  }

  abbrev pub trace_of : Signal F → List (MarketEvent F) → MarketFeatures F → String → SignalTrace F
  trace_of signal members features reason = record {
    signal_id = signal.id;
    event_ids = signal.event_ids;
    rule_names = map (λ (i : MarketEvent F). i.rule_name) members;
    features = features;
    family = signal.family;
    direction = signal.direction;
    priority = signal.priority;
    priority_reason = reason;
    detected_timestamp = signal.detected_timestamp;
    signal_created_timestamp = signal.signal_created_timestamp;
  }

  -- the writes at the end of `_compose_episode`
  unfoldable pub store_episode : EpisodeKey → Produced F → SignalComposer F → SignalComposer F
  unfolding set_homes
  store_episode key (signal, trace) c = record c {
    active = set key signal c.active;
    home = set_homes key signal.event_ids c.home;
    traces = set signal.id trace c.traces;
  }

-- a loop's turn, and the turns after it, with what both produce
module _ {A W : Type 0} where
  abbrev pub prepend : List A → Option (List A × W) → Option (List A × W)
  prepend ps none = none
  prepend ps (some (qs, w)) = some (ps ++ qs, w)

  abbrev pub both : Option (List A × W) → (W → Option (List A × W)) → Option (List A × W)
  both none next = none
  both (some (ps, w)) next = prepend ps (next w)

  abbrev pub one : Option (A × W) → Option (List A × W)
  one none = none
  one (some (p, w)) = some (p ∷ [], w)

module _ {F : Type 0} where
  abbrev pub without_stolen :
      Option (List (Produced F) × Working F) → Option (List (Produced F) × SignalComposer F)
  without_stolen none = none
  without_stolen (some (ps, (stolen, c))) = some (ps, c)

  -- the events by symbol, in the order in which the symbols first occur
  unfoldable pub by_symbol :
      List (MarketEvent F) → Dict String (List (MarketEvent F)) → Dict String (List (MarketEvent F))
  by_symbol [] groups = groups
  by_symbol (e ∷ es) groups =
      by_symbol es (set e.symbol (or_else (get e.symbol groups) [] ++ (e ∷ [])) groups)

  abbrev pub first_with :
      String → List (Produced F) → SignalComposer F → Option (Produced F × SignalComposer F)
  first_with id [] c = none
  first_with id ((signal, trace) ∷ produced) c =
      if contains_id id signal.event_ids
      then some ((signal, trace), c)
      else first_with id produced c

module _ {F : Type 0} ⦃f : Float F⦄ where
  -- the built-in `max` of the market times, from the first of them
  abbrev pub max_time : F → List (MarketEvent F) → F
  max_time t [] = t
  max_time t (e ∷ es) = max_time (max_of t e.market_timestamp) es

module _ {F : Type 0} ⦃f : Float F⦄ (uuid : ℕ → String) (fmt : Formats F) (now : F) where
  -- `_compose_episode`, once the parts of the signal are there
  abbrev pub composed :
      EpisodeKey
      → List (MarketEvent F)
      → MarketFeatures F
      → Identity F
      → Option (SignalPriority × String)
      → Option (String × String)
      → Option (MarketEvent F)
      → Option (Produced F × Working F)
  composed key members features identity (some (priority, reason)) (some copy) (some latest) =
      let signal = signal_of identity key members latest priority copy in
      let trace = trace_of signal members features reason in
      some ((signal, trace), (identity.stolen, store_episode key (signal, trace) identity.composer))
  composed key members features identity _ _ _ = none

  unfoldable pub compose_episode :
      EpisodeKey
      → List (MarketEvent F)
      → MarketFeatures F
      → F
      → Working F
      → Option (Produced F × Working F)
  unfolding classify_family
  compose_episode key members features now_ts (stolen, c) =
      let identity = resolve_identity uuid now key now_ts stolen c in
      let family = classify_family members in
      composed key members features identity (compose_priority fmt members family)
        (render_copy fmt members family features) (last? members)

  -- one turn of the loop over the episodes
  unfoldable pub compose_one :
      String
      → Lineage
      → List String
      → MarketFeatures F
      → F
      → Episode F
      → Working F
      → Option (List (Produced F) × Working F)
  unfolding compose_episode
  compose_one symbol lineage new_ids features now_ts (direction, members) w =
      if not (any (λ i. contains_id i.id new_ids) members)
      then some ([], w)
      else one (
          compose_episode (record { symbol = symbol; lineage = lineage; direction = direction })
            members features now_ts w)

  unfoldable pub compose_each :
      String
      → Lineage
      → List String
      → MarketFeatures F
      → F
      → List (Episode F)
      → Working F
      → Option (List (Produced F) × Working F)
  unfolding compose_one
  compose_each symbol lineage new_ids features now_ts [] w = some ([], w)
  compose_each symbol lineage new_ids features now_ts (e ∷ es) w =
      both (compose_one symbol lineage new_ids features now_ts e w)
        (compose_each symbol lineage new_ids features now_ts es)

  -- one turn of the loop over the lineages
  unfoldable pub consume_lineage :
      String
      → List (MarketEvent F)
      → List (MarketEvent F)
      → MarketFeatures F
      → F
      → Lineage
      → Working F
      → Option (List (Produced F) × Working F)
  unfolding compose_each events_for_partition partition_lineage_episodes resolve_none_target
  consume_lineage symbol recent batch features now_ts lineage (stolen, c) =
      let ours = of_lineage lineage batch in
      let near = of_lineage lineage recent in
      let target =
        resolve_none_target ours near (has_live symbol lineage EventDirection.up c.active)
          (has_live symbol lineage EventDirection.down c.active) in
      let chosen = events_for_partition symbol lineage near ours target c in
      if not (any (λ i. is_lineage (lineage_of i.type) lineage) batch)
      then some ([], (stolen, c))
      else compose_each symbol lineage (event_ids_of batch) features now_ts
          (partition_lineage_episodes chosen target) (stolen, c)

  -- `_consume_symbol`
  unfoldable pub consume_symbol :
      String
      → List (MarketEvent F)
      → MarketFeatures F
      → SignalComposer F
      → Option (List (Produced F) × SignalComposer F)
  unfolding consume_lineage
  consume_symbol symbol [] features c = none
  consume_symbol symbol (b ∷ bs) features c =
      let batch = b ∷ bs in
      let now_ts = max_time b.market_timestamp bs in
      let recent =
        recent_events (sub now_ts c.lookback_s) (or_else (get symbol c.accepted) [] ++ batch) in
      let pruned = prune_active now_ts (record c { accepted = set symbol recent c.accepted }) in
      without_stolen (
        both (consume_lineage symbol recent batch features now_ts Lineage.tape ([], pruned))
          (consume_lineage symbol recent batch features now_ts Lineage.vwap))

  unfoldable pub consume_groups :
      Dict String (List (MarketEvent F))
      → MarketFeatures F
      → SignalComposer F
      → Option (List (Produced F) × SignalComposer F)
  unfolding consume_symbol
  consume_groups [] features c = some ([], c)
  consume_groups ((symbol, batch) ∷ groups) features c =
      both (consume_symbol symbol batch features c) (consume_groups groups features)

  unfoldable pub consume_batch :
      List (MarketEvent F)
      → MarketFeatures F
      → SignalComposer F
      → Option (List (Produced F) × SignalComposer F)
  unfolding consume_groups by_symbol
  consume_batch events features c = consume_groups (by_symbol events []) features c

  -- `consume`, with `none` for its `RuntimeError` too
  unfoldable pub consume :
      MarketEvent F → MarketFeatures F → SignalComposer F → Option (Produced F × SignalComposer F)
  unfolding consume_batch
  consume event features c = elim (consume_batch (event ∷ []) features c) [
    | none ↦ none
    | some (produced, c') ↦ first_with event.id produced c'
  ]
