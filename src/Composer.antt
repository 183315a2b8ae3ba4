-- ===== src/Composer.antt =====
-- src/market_sentinel/signals/composer.py: signals composed from accepted events, one for each live
-- episode. `uuid n` is the identifier that the n-th call of `uuid4` makes, and `made` counts the calls;
-- `now` is the reading of the wall clock. `none` is an exception.
pub mod Batch
pub mod Rows
pub mod Pruning
pub mod Identities
pub mod Valid
pub mod Consumed
pub mod Found
pub mod Members
pub mod Consume
use market_sentinel.Base.{
  ℕ, ◌+◌, String, Bool, true, false, not, ◌||◌, ◌&&◌, Option, none, some, List, [], ◌∷◌, ◌++◌, map,
  filter, any, last?, or_else, eqb, ltb, if◌then◌else◌, arith, ◌≡◌, ◌↔◌,
}
use market_sentinel.Base.Eq.{Eq, string_eq, ◌==◌}
use market_sentinel.Base.Dict.{Dict, get, set, pop}
use market_sentinel.Base.Float.{Float, le, lt, sub, max_of}
use market_sentinel.Domain.{
  EventDirection, direction_eq, GeneratedBy, Lineage, Family, SignalPriority, MarketEvent,
  MarketFeatures, Signal, SignalTrace,
}
use market_sentinel.Cluster.{classify_family, str_le}
use market_sentinel.Priority.{Formats, compose_priority, render_copy}

-- the keys `(symbol, lineage, direction)`
pub record EpisodeKey : Type 0 where
  pub symbol : String
  pub lineage : Lineage
  pub direction : EventDirection

abbrev lineage_index : Lineage → ℕ
lineage_index Lineage.tape = 0
lineage_index Lineage.vwap = 1

abbrev pub key_beq : EpisodeKey → EpisodeKey → Bool
key_beq a b =
    a.symbol == b.symbol
    && (eqb (lineage_index a.lineage) (lineage_index b.lineage) && a.direction == b.direction)

lineage_index_iff : (a b : Lineage) → (eqb (lineage_index a) (lineage_index b) ≡ true) ↔ (a ≡ b)
lineage_index_iff a b = ground arith

pub key_beq_iff : (a b : EpisodeKey) → (key_beq a b ≡ true) ↔ (a ≡ b)
key_beq_iff a b = ground (
  arith,
  string_eq.beq_iff a.symbol b.symbol,
  lineage_index_iff a.lineage b.lineage,
  direction_eq.beq_iff a.direction b.direction,
)

instance abbrev pub key_eq : Eq EpisodeKey
key_eq = record { beq = key_beq; beq_iff = key_beq_iff }

-- `made` is the count of the calls of `uuid4`, which the source has no field for
pub record SignalComposer (F : Type 0) : Type 0 where
  pub lookback_s : F
  pub accepted : Dict String (List (MarketEvent F))
  pub active : Dict EpisodeKey (Signal F)
  pub traces : Dict String (SignalTrace F)
  pub home : Dict String EpisodeKey
  pub made : ℕ

-- the key of the same symbol and lineage without a direction, which also stands for the pair
-- `(symbol, lineage)` in the set `stolen_none`
abbrev pub flat_key : EpisodeKey → EpisodeKey
flat_key k = record k { direction = EventDirection.flat }

abbrev pub is_in : EpisodeKey → List EpisodeKey → Bool
is_in k = any λ j. j == k

-- the loop over the identifiers in `_prune_active`
unfoldable pub drop_homes :
    EpisodeKey → List String → Dict String EpisodeKey → Dict String EpisodeKey
drop_homes key [] home = home
drop_homes key (id ∷ ids) home =
    drop_homes key ids
      (elim (get id home) [ none ↦ home | some k ↦ if k == key then pop id home else home ])

-- `self._home[id] = key` for each of the identifiers
unfoldable pub set_homes :
    EpisodeKey → List String → Dict String EpisodeKey → Dict String EpisodeKey
set_homes key [] home = home
set_homes key (id ∷ ids) home = set_homes key ids (set id key home)

-- what `_resolve_identity` answers and leaves: the identifier and the time of creation, the set
-- `stolen_none`, and the composer
pub record Identity (F : Type 0) : Type 0 where
  pub id : String
  pub created_at : F
  pub stolen : List EpisodeKey
  pub composer : SignalComposer F

module _ {F : Type 0} where
  -- the loop over the expired keys in `_prune_active`; the keys are those of the table, each once, so
  -- the lookup of the first line does not fail
  unfoldable pub forget : EpisodeKey → SignalComposer F → SignalComposer F
  unfolding drop_homes
  forget key c = elim (get key c.active) [
    | none ↦ c
    | some signal ↦ record c {
      active = pop key c.active;
      traces = pop signal.id c.traces;
      home = drop_homes key signal.event_ids c.home;
    }
  ]

  unfoldable pub forget_all : List EpisodeKey → SignalComposer F → SignalComposer F
  unfolding forget
  forget_all [] c = c
  forget_all (key ∷ keys) c = forget_all keys (forget key c)

  abbrev pub event_ids_of : List (MarketEvent F) → List String
  event_ids_of = map λ (i : MarketEvent F). i.id

module _ {F : Type 0} ⦃f : Float F⦄ where
  unfoldable pub expired : F → Dict EpisodeKey (Signal F) → List EpisodeKey
  expired cutoff [] = []
  expired cutoff ((key, signal) ∷ active) =
      let rest = expired cutoff active in
      if lt signal.market_timestamp cutoff then key ∷ rest else rest

  -- `_prune_active`
  unfoldable pub prune_active : F → SignalComposer F → SignalComposer F
  unfolding forget_all expired
  prune_active now_ts c = forget_all (expired (sub now_ts c.lookback_s) c.active) c

  -- the events of the symbol that are in the look-back
  abbrev pub recent_events : F → List (MarketEvent F) → List (MarketEvent F)
  recent_events cutoff = filter λ i. le cutoff i.market_timestamp

  unfoldable pub prune : String → F → SignalComposer F → SignalComposer F
  unfolding prune_active
  prune symbol now_ts c =
      let cutoff = sub now_ts c.lookback_s in
      prune_active now_ts (record c {
        accepted =
            set symbol (recent_events cutoff (or_else (get symbol c.accepted) [])) c.accepted;
      })

  -- a signal that is there and in the look-back
  abbrev pub still_live : F → Option (Signal F) → Option (Signal F)
  still_live cutoff none = none
  still_live cutoff (some s) = if le cutoff s.market_timestamp then some s else none

  module _ (uuid : ℕ → String) (now : F) where
    abbrev pub made_new : List EpisodeKey → SignalComposer F → Identity F
    made_new stolen c = record {
      id = uuid c.made;
      created_at = now;
      stolen = stolen;
      composer = record c { made = c.made + 1 };
    }

    -- once the signal without a direction is looked up
    abbrev pub take_flat :
        EpisodeKey → Option (Signal F) → List EpisodeKey → SignalComposer F → Identity F
    take_flat key none stolen c = made_new stolen c
    take_flat key (some s) stolen c = record {
      id = s.id;
      created_at = s.signal_created_timestamp;
      stolen = flat_key key ∷ stolen;
      composer = record c {
        active = pop (flat_key key) c.active;
        home = set_homes key s.event_ids c.home;
      };
    }

    -- `_resolve_identity`
    unfoldable pub resolve_identity :
        EpisodeKey → F → List EpisodeKey → SignalComposer F → Identity F
    unfolding set_homes
    resolve_identity key now_ts stolen c =
        let cutoff = sub now_ts c.lookback_s in
        elim (still_live cutoff (get key c.active)) [
          | some s ↦ record {
            id = s.id;
            created_at = s.signal_created_timestamp;
            stolen = stolen;
            composer = c;
          }
          | none ↦
              if key.direction == EventDirection.flat || is_in (flat_key key) stolen
              then made_new stolen c
              else take_flat key (still_live cutoff (get (flat_key key) c.active)) stolen c
        ]
