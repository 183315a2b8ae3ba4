-- ===== src/Warming/Request.antt =====
-- What the events of the detector, and more of them, do to the requested level.
use market_sentinel.Base.{
  ◌≤◌, String, ◌≡◌, refl, Bool, ◌||◌, Option, List, [], ◌∷◌, ◌++◌, arith, any, leb,
}
use market_sentinel.Base.Float.{Float}
use market_sentinel.Domain.{MarketEvent, MarketFeatures}
use market_sentinel.Scheduler.{rank}
use market_sentinel.Warming.{WarmingConfig, is_breakout, request}

module _ {F : Type 0} ⦃f : Float F⦄ where
  any-append :
      (p : MarketEvent F → Bool) (xs ys : List (MarketEvent F))
      → any p (xs ++ ys) ≡ (any p xs || any p ys)
  any-append p [] ys = refl
  any-append p (x ∷ xs) ys = ground (arith, any-append p xs ys)

  -- More events, before or after those at hand, never lower the requested level.
  pub request_mono :
      (cfg : WarmingConfig F) (symbol : String) (features : Option (MarketFeatures F))
      (before events after : List (MarketEvent F))
      → rank (request cfg symbol features events).level
        ≤ rank (request cfg symbol features (before ++ (events ++ after))).level
  unfolding request
  request_mono cfg symbol features before events after =
      let severe = λ (e : MarketEvent F). leb cfg.hot_event_severity e.severity in
      let breakout = λ (e : MarketEvent F). is_breakout e.type in
      ground (
        arith,
        any-append severe before (events ++ after),
        any-append severe events after,
        any-append breakout before (events ++ after),
        any-append breakout events after,
      )
