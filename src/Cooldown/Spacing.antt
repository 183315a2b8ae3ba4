-- ===== src/Cooldown/Spacing.antt =====
-- Which alerts of a signal are allowed, one after another.
use market_sentinel.Base.{
  String, ◌≡◌, refl, sym, subst, Bool, true, ◌||◌, Option, none, some, List, [], ◌∷◌, arith, ltb,
  if◌then◌else◌,
}
use market_sentinel.Base.Eq.{string_eq}
use market_sentinel.Base.Dict.{get, set}
use market_sentinel.Base.Float.{Float, le, sub}
use market_sentinel.Domain.{SignalPriority, priority_rank}
use market_sentinel.Gate.{Gate, open_gate, passed, Chain, of_key, passed-Chain}
use market_sentinel.Cooldown.{CooldownGate, allow}

-- a call of `allow`: the time, the signal and its priority
pub record Ask (F : Type 0) : Type 0 where
  pub now : F
  pub signal_id : String
  pub priority : SignalPriority

module _ {F : Type 0} ⦃f : Float F⦄ where
  -- an alert that the last one lets through: past the cooldown, or of a higher priority
  abbrev pub renews : F → Option (F × SignalPriority) → Ask F → Bool
  renews cooldown_s none a = true
  renews cooldown_s (some (last_mono, last_priority)) a =
      le cooldown_s (sub a.now last_mono)
      || ltb (priority_rank last_priority) (priority_rank a.priority)

  abbrev pub gate : F → Gate String (F × SignalPriority) (Ask F)
  gate cooldown_s = record {
    key = λ a. a.signal_id;
    record_of = λ a. (a.now, a.priority);
    renews = renews cooldown_s;
  }

  -- the allowed ones among successive calls
  unfoldable pub allowed : List (Ask F) → CooldownGate F → List (Ask F)
  unfolding allow
  allowed [] g = []
  allowed (a ∷ rest) g =
      let (yes_, g') = allow a.now a.signal_id a.priority g in
      let later = allowed rest g' in if yes_ then a ∷ later else later

  allowed-eq-passed :
      (asks : List (Ask F)) (g : CooldownGate F)
      → allowed asks g ≡ passed (gate g.cooldown_s) asks g.last
  unfolding allowed passed open_gate
  allowed-eq-passed [] g = refl
  allowed-eq-passed (a ∷ rest) g = ground (
    arith,
    allowed-eq-passed rest g,
    allowed-eq-passed rest (record g { last = set a.signal_id (a.now, a.priority) g.last }),
  )

  -- Of the alerts that are allowed for one signal, each comes at least the cooldown after the one before
  -- it, or has a higher priority; the first is so against what the gate holds at the start.
  pub allowed-Chain :
      (signal_id : String) (asks : List (Ask F)) (g : CooldownGate F)
      → Chain
          (gate g.cooldown_s)
          (get signal_id g.last)
          (of_key (gate g.cooldown_s) signal_id (allowed asks g))
  allowed-Chain signal_id asks g =
      subst
        (λ xs.
          Chain (gate g.cooldown_s) (get signal_id g.last)
            (of_key (gate g.cooldown_s) signal_id xs))
        (sym (allowed-eq-passed asks g)) (passed-Chain (gate g.cooldown_s) signal_id asks g.last)
