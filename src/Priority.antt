-- ===== src/Priority.antt =====
-- src/market_sentinel/signals/copy.py: the priority of an episode, and the text of its signal. The
-- language's formatting of numbers is an argument.
pub mod Floor
use market_sentinel.Base.{
  ℕ, String, Bool, true, false, ◌||◌, ◌&&◌, Option, none, some, List, [], ◌∷◌, ◌++◌, leb, ltb, map,
  if◌then◌else◌, last?,
}
use market_sentinel.Base.Eq.{string_eq, ◌==◌}
use market_sentinel.Base.Text.{concat}
use market_sentinel.Base.Float.{Float, mul, num}
use market_sentinel.Domain.{
  EventType, type_value, SignalPriority, priority_rank, Family, MarketEvent, MarketFeatures,
}
use market_sentinel.Events.{max_nat}
use market_sentinel.Cluster.{str_le, has_type, is_volume, is_move}

-- `str` of an integer, `:.2f` and `:+.2f` of a float
pub record Formats (F : Type 0) : Type 0 where
  pub int_text : ℕ → String
  pub two_decimals : F → String
  pub signed_decimals : F → String

-- `max_priority` of two
unfoldable pub max_priority : SignalPriority → SignalPriority → SignalPriority
max_priority a b = if ltb (priority_rank a) (priority_rank b) then b else a

unfoldable pub priority_from_severity : ℕ → SignalPriority
priority_from_severity severity =
    if leb 5 severity
    then SignalPriority.critical
    else if leb 4 severity
    then SignalPriority.important
    else if leb 3 severity
    then SignalPriority.notice
    else SignalPriority.info

-- the string that a family is
abbrev pub family_value : Family → String
family_value Family.price_volume = "price_volume"
family_value Family.breakout = "breakout"
family_value Family.breakdown = "breakdown"
family_value Family.volume = "volume"
family_value Family.move = "move"
family_value Family.vwap = "vwap"
family_value Family.other = "other"

abbrev pub is_price_volume : Family → Bool
is_price_volume Family.price_volume = true
is_price_volume _ = false

abbrev pub is_volume_family : Family → Bool
is_volume_family Family.volume = true
is_volume_family _ = false

module _ {F : Type 0} where
  -- the built-in `max` of the severities, from the first of them
  abbrev pub max_severity : ℕ → List (MarketEvent F) → ℕ
  max_severity s [] = s
  max_severity s (e ∷ es) = max_severity (max_nat s e.severity) es

  -- once the highest severity is known
  abbrev pub priority_at : Formats F → List (MarketEvent F) → Family → ℕ → SignalPriority × String
  priority_at fmt events family severity =
      let base = priority_from_severity severity in
      if is_price_volume family || (has_type is_volume events && has_type is_move events)
      then (
        max_priority base SignalPriority.important,
        concat (
            "family="
            ∷ family_value family
            ∷ "; max_severity="
            ∷ fmt.int_text severity
            ∷ "; cluster=price_volume"
            ∷ []),
      )
      else if is_volume_family family
      then (
        max_priority base SignalPriority.notice,
        concat (
            "family=volume; max_severity="
            ∷ fmt.int_text severity
            ∷ "; standalone_volume_notice"
            ∷ []),
      )
      else (
        base,
        concat ("family=" ∷ family_value family ∷ "; max_severity=" ∷ fmt.int_text severity ∷ []),
      )

  -- `compose_priority`, with `none` for the `ValueError` of an empty sequence
  unfoldable pub compose_priority :
      Formats F → List (MarketEvent F) → Family → Option (SignalPriority × String)
  unfolding max_priority priority_from_severity
  compose_priority fmt [] family = none
  compose_priority fmt (e ∷ es) family =
      some (priority_at fmt (e ∷ es) family (max_severity e.severity es))

-- `sorted` of a set of strings: each one once
unfoldable pub insert_name : String → List String → List String
insert_name s [] = s ∷ []
insert_name s (t ∷ ts) =
    let rest = insert_name s ts in
    if s == t then t ∷ ts else if str_le s t then s ∷ (t ∷ ts) else t ∷ rest

unfoldable pub sorted_names : List String → List String
unfolding insert_name
sorted_names [] = []
sorted_names (s ∷ ss) = insert_name s (sorted_names ss)

-- `sep.join(parts)`
abbrev pub join : String → List String → String
join sep [] = ""
join sep (s ∷ []) = s
join sep (s ∷ (t ∷ ts)) = concat (s ∷ sep ∷ join sep (t ∷ ts) ∷ [])

abbrev pub title_of : String → Family → String
title_of symbol Family.volume = concat (symbol ∷ " 成交量明显放大" ∷ [])
title_of symbol Family.move = concat (symbol ∷ " 出现短时快速涨跌" ∷ [])
title_of symbol Family.price_volume = concat (symbol ∷ " 出现量价同步扩张" ∷ [])
title_of symbol Family.breakout = concat (symbol ∷ " 突破日内高点" ∷ [])
title_of symbol Family.breakdown = concat (symbol ∷ " 跌破日内低点" ∷ [])
title_of symbol Family.vwap = concat (symbol ∷ " 价格穿越VWAP" ∷ [])
title_of symbol Family.other = concat (symbol ∷ " 出现市场异动" ∷ [])

module _ {F : Type 0} ⦃f : Float F⦄ (fmt : Formats F) where
  -- one `facts.append`, where the feature is there
  abbrev pub percent_fact : String → Option F → List String
  percent_fact label none = []
  percent_fact label (some x) =
      concat (label ∷ fmt.signed_decimals (mul x (num 100)) ∷ "%" ∷ []) ∷ []

  abbrev pub ratio_fact : String → Option F → List String
  ratio_fact label none = []
  ratio_fact label (some x) = concat (label ∷ fmt.two_decimals x ∷ " 倍" ∷ []) ∷ []

  abbrev pub extreme_fact : String → String → F → Option F → List String
  extreme_fact label versus obs none = []
  extreme_fact label versus obs (some ref) =
      concat (label ∷ fmt.two_decimals obs ∷ versus ∷ fmt.two_decimals ref ∷ []) ∷ []

  abbrev pub side_fact : Option F → Option Bool → List String
  side_fact (some v) (some above) =
      concat ("价格位于VWAP" ∷ (if above then "上方" else "下方") ∷ " " ∷ fmt.two_decimals v ∷ []) ∷ []
  side_fact _ _ = []

  unfoldable pub facts_of : List (MarketEvent F) → MarketFeatures F → List String
  unfolding sorted_names
  facts_of events features =
      percent_fact "1分钟涨跌 " features.change_1m
      ++ (percent_fact "5分钟涨跌 " features.change_5m
          ++ (ratio_fact "1分钟成交量 " features.volume_ratio_1m
              ++ (ratio_fact "5分钟成交量 " features.volume_ratio_5m
                  ++ (extreme_fact "观测日内高 " " vs 前高 " features.session_high_obs
                        features.session_high_ref
                      ++ (extreme_fact "观测日内低 " " vs 前低 " features.session_low_obs
                            features.session_low_ref
                          ++ (side_fact features.vwap features.above_vwap
                              ++ (concat (
                                    "触发规则 "
                                    ∷ join " + " (
                                        sorted_names
                                          (map (λ (i : MarketEvent F). type_value i.type) events))
                                    ∷ [])
                                  ∷ [])))))))

  -- `render_copy`, with `none` for the `IndexError` of an empty sequence
  unfoldable pub render_copy :
      List (MarketEvent F) → Family → MarketFeatures F → Option (String × String)
  unfolding facts_of
  render_copy events family features = elim (last? events) [
    | none ↦ none
    | some latest ↦ some (title_of latest.symbol family, join "，" (facts_of events features))
  ]
