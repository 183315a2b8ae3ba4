-- ===== src/Composer/Rows.antt =====
-- What is read of the composer: its live signals of a symbol, in order, and the trace of a signal.
use market_sentinel.Base.{
  ℕ, String, Bool, ◌||◌, ◌&&◌, Option, List, [], ◌∷◌, map, eqb, ltb, if◌then◌else◌,
}
use market_sentinel.Base.Eq.{string_eq, ◌==◌}
use market_sentinel.Base.Dict.{Dict, get}
use market_sentinel.Domain.{EventDirection, direction_eq, Signal, SignalTrace}
use market_sentinel.Cluster.{str_le}
use market_sentinel.Composer.{EpisodeKey, lineage_index, key_eq, SignalComposer}

module _ {F : Type 0} where
  unfoldable pub trace_for : String → SignalComposer F → Option (SignalTrace F)
  trace_for signal_id c = get signal_id c.traces

-- `_DIRECTION_ORDER`
abbrev pub direction_order : EventDirection → ℕ
direction_order EventDirection.flat = 0
direction_order EventDirection.up = 1
direction_order EventDirection.down = 2

-- the order of the rows of `active_signals`, before the signals themselves, which differ in lineage or
-- direction where they are of one symbol
module _ {F : Type 0} where
  abbrev pub row_le : EpisodeKey × Signal F → EpisodeKey × Signal F → Bool
  row_le (j, s) (k, t) =
      ltb (lineage_index j.lineage) (lineage_index k.lineage)
      || (eqb (lineage_index j.lineage) (lineage_index k.lineage)
          && (ltb (direction_order j.direction) (direction_order k.direction)
              || (eqb (direction_order j.direction) (direction_order k.direction)
                  && str_le s.id t.id)))

  unfoldable pub insert_row :
      EpisodeKey × Signal F → List (EpisodeKey × Signal F) → List (EpisodeKey × Signal F)
  insert_row r [] = r ∷ []
  insert_row r (q ∷ qs) =
      let rest = insert_row r qs in if row_le r q then r ∷ (q ∷ qs) else q ∷ rest

  unfoldable pub rows_of : String → Dict EpisodeKey (Signal F) → List (EpisodeKey × Signal F)
  unfolding insert_row
  rows_of symbol [] = []
  rows_of symbol ((k, s) ∷ active) =
      let rest = rows_of symbol active in
      if k.symbol == symbol then insert_row (k, s) rest else rest

  abbrev pub signals_of : List (EpisodeKey × Signal F) → List (Signal F)
  signals_of = map λ (r : EpisodeKey × Signal F). r.1

  unfoldable pub active_signals : String → SignalComposer F → List (Signal F)
  unfolding rows_of
  active_signals symbol c = signals_of (rows_of symbol c.active)
