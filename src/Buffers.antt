-- ===== src/Buffers.antt =====
-- src/market_sentinel/market_data/buffers.py: a ring buffer for each symbol, made when the symbol is
-- first seen. `none` is the `ValueError` of a ring buffer that cannot be made.
pub mod Newest
use market_sentinel.Base.{ℕ, String, Option, none, some, List, []}
use market_sentinel.Base.Eq.{string_eq}
use market_sentinel.Base.Dict.{Dict, get, set}
use market_sentinel.Base.Float.{Float}
use market_sentinel.Domain.{MarketSnapshot}
use market_sentinel.RingBuffer
use market_sentinel.RingBuffer.{RingBuffer}

pub record SymbolBuffers (F : Type 0) : Type 0 where
  pub retention_s : F
  pub max_size : ℕ
  pub buffers : Dict String (RingBuffer F)

module _ {F : Type 0} ⦃f : Float F⦄ where
  unfoldable pub empty : F → ℕ → SymbolBuffers F
  empty retention_s max_size = record {
    retention_s = retention_s;
    max_size = max_size;
    buffers = [];
  }

  abbrev pub made_for :
      String → SymbolBuffers F → Option (RingBuffer F) → Option (RingBuffer F × SymbolBuffers F)
  made_for symbol s none = none
  made_for symbol s (some b) = some (b, record s { buffers = set symbol b s.buffers })

  -- `_buffer_for`: the buffer, and the table that holds it
  unfoldable pub buffer_for : String → SymbolBuffers F → Option (RingBuffer F × SymbolBuffers F)
  buffer_for symbol s = elim (get symbol s.buffers) [
    | some b ↦ some (b, s)
    | none ↦ made_for symbol s (RingBuffer.new s.retention_s s.max_size)
  ]

  unfoldable pub append : MarketSnapshot F → SymbolBuffers F → Option (SymbolBuffers F)
  unfolding buffer_for
  append snapshot s = elim (buffer_for snapshot.symbol s) [
    | none ↦ none
    | some (b, t) ↦
        some (record t { buffers = set snapshot.symbol (RingBuffer.append snapshot b) t.buffers })
  ]

  unfoldable pub buffer : String → SymbolBuffers F → Option (RingBuffer F)
  buffer symbol s = get symbol s.buffers

  unfoldable pub latest : String → SymbolBuffers F → Option (MarketSnapshot F)
  latest symbol s = elim (get symbol s.buffers) [ none ↦ none | some b ↦ RingBuffer.latest b ]

  unfoldable pub at_or_before : String → F → SymbolBuffers F → Option (MarketSnapshot F)
  at_or_before symbol timestamp s = elim (get symbol s.buffers) [
    | none ↦ none
    | some b ↦ RingBuffer.at_or_before timestamp b
  ]

  -- `window` and `since` make the buffer of a symbol that was never seen
  unfoldable pub window :
      String → F → SymbolBuffers F → Option (List (MarketSnapshot F) × SymbolBuffers F)
  unfolding buffer_for
  window symbol duration_s s = elim (buffer_for symbol s) [
    | none ↦ none
    | some (b, t) ↦ some (RingBuffer.window duration_s b, t)
  ]

  unfoldable pub since :
      String → F → SymbolBuffers F → Option (List (MarketSnapshot F) × SymbolBuffers F)
  unfolding buffer_for
  since symbol timestamp s = elim (buffer_for symbol s) [
    | none ↦ none
    | some (b, t) ↦ some (RingBuffer.since timestamp b, t)
  ]
