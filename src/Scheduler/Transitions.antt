-- ===== src/Scheduler/Transitions.antt =====
-- Level changes: what `set_level` answers and does, and the time between two changes.
use market_sentinel.Base.{String, ◌≡◌, ◌≢◌, Bool, false, ◌&&◌, ◌||◌, some, arith, if◌then◌else◌}
use market_sentinel.Base.Eq.{string_eq, ◌==◌, beq_refl}
use market_sentinel.Base.Dict.{get, get-set}
use market_sentinel.Base.Float.{Float, sub, ◌≼◌}
use market_sentinel.Domain.{SchedulerLevel, level_eq}
use market_sentinel.Scheduler.{
  AdaptiveScheduler, get_level, required_dwell, dwell_elapsed, set_level,
}

module _ {F : Type 0} ⦃f : Float F⦄ where
  -- when a request is granted
  abbrev pub grants : F → Bool → String → SchedulerLevel → AdaptiveScheduler F → Bool
  grants now force symbol level s =
      level == get_level symbol s
      || (force || dwell_elapsed now symbol (get_level symbol s) level s)

  -- `set_level` answers whether it grants the request, which it does at the level that the symbol has,
  -- by force, or when the dwell time has passed. Granted, the symbol is at the requested level; refused,
  -- it is where it was; and every other symbol stays where it was.
  pub set_level_lem :
      (now : F) (force : Bool) (symbol : String) (level : SchedulerLevel) (s : AdaptiveScheduler F)
      → ((set_level now force symbol level s).0 ≡ grants now force symbol level s)
        × ((k : String)
            → get_level k (set_level now force symbol level s).1
              ≡ (if symbol == k && grants now force symbol level s then level else get_level k s))
  unfolding set_level
  set_level_lem now force symbol level s = (
    ground arith,
    λ k. ground (
      arith,
      string_eq.beq_iff symbol k,
      level_eq.beq_iff level (get_level symbol s),
      get-set symbol k level s.levels,
      get-set symbol k (get_level symbol s) s.levels,
    ),
  )

  -- Without force, a request that moves a symbol off its level, where the symbol has changed before, is
  -- granted only if its last change is at least the required dwell time ago, and the change is then
  -- recorded at the present time; a request that leaves the level as it was records no change.
  pub change_after_dwell :
      (now last : F) (symbol : String) (level : SchedulerLevel) (s : AdaptiveScheduler F)
      → get symbol s.last_change_mono ≡ some last
      → let t = (set_level now false symbol level s).1 in
        (get_level symbol t ≢ get_level symbol s
          → (required_dwell (get_level symbol s) level s ≼ sub now last)
            × (get symbol t.last_change_mono ≡ some now))
        × (get_level symbol t ≡ get_level symbol s → t.last_change_mono ≡ s.last_change_mono)
  unfolding set_level
  change_after_dwell now last symbol level s e =
      let same = level_eq.beq_iff level (get_level symbol s) in
      let new = get-set symbol symbol level s.levels in
      let kept = get-set symbol symbol (get_level symbol s) s.levels in
      let mark = get-set symbol symbol now s.last_change_mono in
      (
        λ n. ground (arith, e, same, new, kept, mark, beq_refl symbol, n),
        λ n. ground (arith, e, same, new, kept, beq_refl symbol),
      )
