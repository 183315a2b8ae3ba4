-- ===== src/Composer/Pruning.antt =====
-- Pruning: expired signals go with their traces, and the composer stays well-formed.
use market_sentinel.Base.{ℕ, String, ◌≡◌, some, List, [], ◌∷◌, arith, Option-cases, inl, inr}
use market_sentinel.Base.Eq.{string_eq}
use market_sentinel.Base.Dict.{get, pop, get-pop}
use market_sentinel.Base.Dict.Unique.{Unique-pop}
use market_sentinel.Base.Float.{Float, sub}
use market_sentinel.Domain.{Signal}
use market_sentinel.Composer.{
  EpisodeKey, key_eq, SignalComposer, forget, forget_all, expired, prune_active, prune, drop_homes,
}
use market_sentinel.Composer.Valid.{IsValid, found_before_pop}

module _ {F : Type 0} where
  -- the tables without a signal
  abbrev without : EpisodeKey → Signal F → SignalComposer F → SignalComposer F
  without key signal c = record c {
    active = pop key c.active;
    traces = pop signal.id c.traces;
    home = drop_homes key signal.event_ids c.home;
  }

  without-IsValid :
      (uuid : ℕ → String) (key : EpisodeKey) (signal : Signal F) (c : SignalComposer F)
      → get key c.active ≡ some signal
      → IsValid uuid c
      → IsValid uuid (without key signal c)
  without-IsValid uuid key signal c e v = record {
    unique = Unique-pop key c.active v.unique;
    keyed = λ k s h. v.keyed k s (found_before_pop key k s c.active h).0;
    made_before = λ k s h. v.made_before k s (found_before_pop key k s c.active h).0;
    distinct = λ k j s t h q.
        v.distinct k j s t (found_before_pop key k s c.active h).0
          (found_before_pop key j t c.active q).0;
    traced = λ k s h.
        let (there, other) = found_before_pop key k s c.active h in
        let (t, found, same_id, same_events) = v.traced k s there in
        (
          t,
          (ground (
            arith,
            get-pop signal.id s.id c.traces,
            found,
            other,
            string_eq.beq_iff signal.id s.id,
            key_eq.beq_iff key k,
            v.distinct key k signal s e there,
          )),
          same_id,
          same_events,
        );
  }

  pub forget-IsValid :
      (uuid : ℕ → String) (key : EpisodeKey) (c : SignalComposer F)
      → IsValid uuid c
      → IsValid uuid (forget key c)
  unfolding forget
  forget-IsValid uuid key c v = elim (Option-cases (get key c.active)) [
    | inl e ↦ rw (e, forget) v
    | inr (signal, e) ↦ rw (e, forget) (without-IsValid uuid key signal c e v)
  ]

  pub forget_all-IsValid :
      (uuid : ℕ → String) (keys : List EpisodeKey) (c : SignalComposer F)
      → IsValid uuid c
      → IsValid uuid (forget_all keys c)
  unfolding forget_all
  forget_all-IsValid uuid [] c v = v
  forget_all-IsValid uuid (key ∷ keys) c v =
      forget_all-IsValid uuid keys (forget key c) (forget-IsValid uuid key c v)

module _ {F : Type 0} ⦃f : Float F⦄ where
  pub prune_active-IsValid :
      (uuid : ℕ → String) (now_ts : F) (c : SignalComposer F)
      → IsValid uuid c
      → IsValid uuid (prune_active now_ts c)
  unfolding prune_active
  prune_active-IsValid uuid now_ts c v =
      forget_all-IsValid uuid (expired (sub now_ts c.lookback_s) c.active) c v

  -- `prune` keeps a composer well-formed
  pub prune-IsValid :
      (uuid : ℕ → String) (symbol : String) (now_ts : F) (c : SignalComposer F)
      → IsValid uuid c
      → IsValid uuid (prune symbol now_ts c)
  unfolding prune
  prune-IsValid uuid symbol now_ts c v = prune_active-IsValid uuid now_ts _ (record {
    unique = v.unique;
    keyed = v.keyed;
    made_before = v.made_before;
    distinct = v.distinct;
    traced = v.traced;
  })
