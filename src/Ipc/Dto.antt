-- ===== src/Ipc/Dto.antt =====
-- src/market_sentinel/ipc/dto.py: what goes over the wire, and its JSON.
use market_sentinel.Base.{ℕ, String, Bool, Option, List, [], ◌∷◌, ◌++◌, map}
use market_sentinel.Base.Float.{Float, num}
use market_sentinel.Ipc.Json.{
  Json, flag, number, text, array, dict, items_of, number_or_null, field_if, flag_if,
}

pub record WireIntelligence (F : Type 0) : Type 0 where
  pub status : String
  pub summary : Option String
  pub reason : Option String
  pub confidence : Option F
  pub fallback_reason : Option String
  pub worth_highlight : Option Bool

pub record WireSignal (F : Type 0) : Type 0 where
  pub id : String
  pub family : String
  pub direction : String
  pub priority : String
  pub title : String
  pub summary : String
  pub intelligence : Option (WireIntelligence F)

pub record WireSymbolState (F : Type 0) : Type 0 where
  pub symbol : String
  pub price : Option F
  pub scheduler_level : String
  pub feed_status : String
  pub change_1m : Option F
  pub change_5m : Option F
  pub change_15m : Option F
  pub volume_ratio_1m : Option F
  pub volume_ratio_5m : Option F
  pub ema5 : Option F
  pub ema20 : Option F
  pub rsi14 : Option F
  pub vwap : Option F
  pub active_signals : List (WireSignal F)
  pub change_day : Option F
  pub above_vwap : Option Bool
  pub session_high_obs : Option F
  pub session_low_obs : Option F
  pub session_high_ref : Option F
  pub session_low_ref : Option F
  pub market_timestamp : Option F

pub record WireMarketState (F : Type 0) : Type 0 where
  pub watchlist_count : ℕ
  pub feed_status : String
  pub symbols : List (WireSymbolState F)
  pub intelligence_enabled : Bool
  pub replay_complete : Bool
  pub last_market_timestamp : Option F

pub record WireAlertCandidate : Type 0 where
  pub id : String
  pub symbol : String
  pub family : String
  pub direction : String
  pub priority : String
  pub title : String
  pub summary : String

module _ {F : Type 0} where
  -- `to_wire` of each class
  unfoldable pub intelligence_to_wire : WireIntelligence F → Json F
  intelligence_to_wire w = dict (
      ("status", text w.status)
      ∷ (field_if "summary" text w.summary
          ++ (field_if "reason" text w.reason
              ++ (field_if "confidence" number w.confidence
                  ++ (field_if "fallback_reason" text w.fallback_reason
                      ++ field_if "worth_highlight" flag w.worth_highlight)))))

  unfoldable pub signal_to_wire : WireSignal F → Json F
  unfolding intelligence_to_wire
  signal_to_wire w = dict (
      ("id", text w.id)
      ∷ ("family", text w.family)
      ∷ ("direction", text w.direction)
      ∷ ("priority", text w.priority)
      ∷ ("title", text w.title)
      ∷ ("summary", text w.summary)
      ∷ field_if "intelligence" intelligence_to_wire w.intelligence)

  unfoldable pub symbol_to_wire : WireSymbolState F → Json F
  unfolding signal_to_wire
  symbol_to_wire w = dict (
      ("symbol", text w.symbol)
      ∷ ("price", number_or_null w.price)
      ∷ ("scheduler_level", text w.scheduler_level)
      ∷ ("feed_status", text w.feed_status)
      ∷ ("change_1m", number_or_null w.change_1m)
      ∷ ("change_5m", number_or_null w.change_5m)
      ∷ ("change_15m", number_or_null w.change_15m)
      ∷ ("volume_ratio_1m", number_or_null w.volume_ratio_1m)
      ∷ ("volume_ratio_5m", number_or_null w.volume_ratio_5m)
      ∷ ("ema5", number_or_null w.ema5)
      ∷ ("ema20", number_or_null w.ema20)
      ∷ ("rsi14", number_or_null w.rsi14)
      ∷ ("vwap", number_or_null w.vwap)
      ∷ ("active_signals", array (items_of (map signal_to_wire w.active_signals)))
      ∷ (field_if "change_day" number w.change_day
          ++ (field_if "above_vwap" flag w.above_vwap
              ++ (field_if "session_high_obs" number w.session_high_obs
                  ++ (field_if "session_low_obs" number w.session_low_obs
                      ++ (field_if "session_high_ref" number w.session_high_ref
                          ++ (field_if "session_low_ref" number w.session_low_ref
                              ++ field_if "market_timestamp" number w.market_timestamp)))))))

  unfoldable pub candidate_to_wire : WireAlertCandidate → Json F
  candidate_to_wire w = dict (
      ("id", text w.id)
      ∷ ("symbol", text w.symbol)
      ∷ ("family", text w.family)
      ∷ ("direction", text w.direction)
      ∷ ("priority", text w.priority)
      ∷ ("title", text w.title)
      ∷ ("summary", text w.summary)
      ∷ [])

module _ {F : Type 0} ⦃f : Float F⦄ where
  unfoldable pub state_to_wire : WireMarketState F → Json F
  unfolding symbol_to_wire
  state_to_wire w = dict (
      ("watchlist_count", number (num w.watchlist_count))
      ∷ ("feed_status", text w.feed_status)
      ∷ ("symbols", array (items_of (map symbol_to_wire w.symbols)))
      ∷ (flag_if "intelligence_enabled" w.intelligence_enabled
          ++ (flag_if "replay_complete" w.replay_complete
              ++ field_if "last_market_timestamp" number w.last_market_timestamp)))
