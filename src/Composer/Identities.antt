-- ===== src/Composer/Identities.antt =====
-- The identifier of an episode is its own, and composing keeps the composer well-formed.
use market_sentinel.Base.{
  ℕ, String, ◌≡◌, refl, sym, ap, subst, ◌∙◌, ◌||◌, Option, none, some, List, arith, Bool-cases,
  Option-cases, inl, inr,
}
use market_sentinel.Base.Eq.{string_eq, ◌==◌, beq_refl}
use market_sentinel.Base.Dict.{get, set, get-set}
use market_sentinel.Base.Dict.Unique.{Unique-set, Unique-pop}
use market_sentinel.Base.Float.{Float, sub}
use market_sentinel.Domain.{EventDirection, direction_eq, Signal, SignalTrace}
use market_sentinel.Composer.{
  EpisodeKey, key_eq, SignalComposer, Identity, flat_key, is_in, still_live, made_new, take_flat,
  resolve_identity,
}
use market_sentinel.Composer.Batch.{Produced, store_episode}
use market_sentinel.Composer.Valid.{IsValid, found_before_pop, found_after_set, Made, Owns}

module _ {F : Type 0} where
  -- an identity for a key, with the composer that it leaves
  pub record Claimed (uuid : ℕ → String) (key : EpisodeKey) (i : Identity F) : Type 0 where
    pub valid : IsValid uuid i.composer
    pub made : Made uuid i.id i.composer
    pub owned : Owns key i.id i.composer

  -- a signal and its trace that fit the key
  pub record Fits (key : EpisodeKey) (p : Produced F) : Type 0 where
    pub symbol : p.0.symbol ≡ key.symbol
    pub direction : p.0.direction ≡ key.direction
    pub same_id : p.1.signal_id ≡ p.0.id
    pub same_events : p.1.event_ids ≡ p.0.event_ids

  pub store_episode-IsValid :
      (uuid : ℕ → String) (key : EpisodeKey) (p : Produced F) (c : SignalComposer F)
      → IsValid uuid c
      → Made uuid p.0.id c
      → Owns key p.0.id c
      → Fits key p
      → IsValid uuid (store_episode key p c)
  unfolding store_episode
  store_episode-IsValid uuid key (signal, trace) c v m o h = record {
    unique = Unique-set key signal c.active v.unique;
    keyed = λ k s e. elim (found_after_set key k signal s c.active e) [
      | inl (p, q) ↦
          subst (λ (x : Signal F). (x.symbol ≡ k.symbol) × (x.direction ≡ k.direction)) q
            (subst
              (λ (y : EpisodeKey). (signal.symbol ≡ y.symbol) × (signal.direction ≡ y.direction)) p
              (h.symbol, h.direction))
      | inr (n, r) ↦ v.keyed k s r
    ];
    made_before = λ k s e. elim (found_after_set key k signal s c.active e) [
      | inl (p, q) ↦ subst (λ (x : Signal F). Made uuid x.id c) q m
      | inr (n, r) ↦ v.made_before k s r
    ];
    distinct = λ k j s t e e' same. elim (found_after_set key k signal s c.active e) [
      | inl (p, q) ↦ elim (found_after_set key j signal t c.active e') [
        | inl (p', q') ↦ sym p ∙ p'
        | inr (n', r') ↦ sym p ∙ sym (o j t r' (sym same ∙ sym (ap (λ (x : Signal F). x.id) q)))
      ]
      | inr (n, r) ↦ elim (found_after_set key j signal t c.active e') [
        | inl (p', q') ↦ o k s r (same ∙ sym (ap (λ (x : Signal F). x.id) q')) ∙ p'
        | inr (n', r') ↦ v.distinct k j s t r r' same
      ]
    ];
    traced = λ k s e. elim (found_after_set key k signal s c.active e) [
      | inl (p, q) ↦
          subst
            (λ (x : Signal F).
              (t : SignalTrace F) × (get x.id (set signal.id trace c.traces) ≡ some t)
              × (t.signal_id ≡ x.id)
              × (t.event_ids ≡ x.event_ids))
            q (trace, rw (get-set, beq_refl) refl, h.same_id, h.same_events)
      | inr (n, r) ↦
          let (t, found, same_id, same_events) = v.traced k s r in
          (
            t,
            ground (
              arith,
              get-set signal.id s.id trace c.traces,
              found,
              n,
              string_eq.beq_iff signal.id s.id,
              key_eq.beq_iff key k,
              o k s r,
            ),
            same_id,
            same_events,
          )
    ];
  }

module _ {F : Type 0} ⦃f : Float F⦄ where
  found_if_live :
      (cutoff : F) (o : Option (Signal F)) (s : Signal F)
      → still_live cutoff o ≡ some s
      → o ≡ some s
  found_if_live cutoff none s e = e
  found_if_live cutoff (some t) s e = ground arith

  module _ (uuid : ℕ → String) (unique : (i j : ℕ) → uuid i ≡ uuid j → i ≡ j) where
    made_new-Claimed :
        (now : F) (key : EpisodeKey) (stolen : List EpisodeKey) (c : SignalComposer F)
        → IsValid uuid c
        → Claimed uuid key (made_new uuid now stolen c)
    made_new-Claimed now key stolen c v = record {
      valid = record {
        unique = v.unique;
        keyed = v.keyed;
        made_before = λ k s e. let (i, lt_i, q) = v.made_before k s e in (i, omega arith, q);
        distinct = v.distinct;
        traced = v.traced;
      };
      made = (c.made, omega arith, refl);
      owned = λ j s e q.
          let (i, below, r) = v.made_before j s e in
          let same : i ≡ c.made = unique i c.made (sym r ∙ q) in absurd (omega arith);
    }

    take_flat-Claimed :
        (now : F) (key : EpisodeKey) (o : Option (Signal F)) (stolen : List EpisodeKey)
        (c : SignalComposer F)
        → IsValid uuid c
        → ((s : Signal F) → o ≡ some s → get (flat_key key) c.active ≡ some s)
        → Claimed uuid key (take_flat uuid now key o stolen c)
    take_flat-Claimed now key none stolen c v h = made_new-Claimed now key stolen c v
    take_flat-Claimed now key (some s) stolen c v h =
        let there = h s refl in
        record {
          valid = record {
            unique = Unique-pop (flat_key key) c.active v.unique;
            keyed = λ k t e. v.keyed k t (found_before_pop (flat_key key) k t c.active e).0;
            made_before =
                λ k t e. v.made_before k t (found_before_pop (flat_key key) k t c.active e).0;
            distinct = λ k j t u e q.
                v.distinct k j t u (found_before_pop (flat_key key) k t c.active e).0
                  (found_before_pop (flat_key key) j u c.active q).0;
            traced = λ k t e. v.traced k t (found_before_pop (flat_key key) k t c.active e).0;
          };
          made = v.made_before (flat_key key) s there;
          owned = λ j t e q.
              let (found, other) = found_before_pop (flat_key key) j t c.active e in
              let same : flat_key key ≡ j = v.distinct (flat_key key) j s t there found (sym q) in
              absurd (ground (arith, other, key_eq.beq_iff (flat_key key) j, same));
        }

    pub resolve_identity-Claimed :
        (now now_ts : F) (key : EpisodeKey) (stolen : List EpisodeKey) (c : SignalComposer F)
        → IsValid uuid c
        → Claimed uuid key (resolve_identity uuid now key now_ts stolen c)
    unfolding resolve_identity
    resolve_identity-Claimed now now_ts key stolen c v =
        let cutoff = sub now_ts c.lookback_s in
        elim (Option-cases (still_live cutoff (get key c.active))) [
          | inr (s, e) ↦
              let there = found_if_live cutoff (get key c.active) s e in
              rw (e, resolve_identity)
                (record {
                  valid = v;
                  made = v.made_before key s there;
                  owned = λ j t q same. v.distinct j key t s q there same;
                })
          | inl e ↦
              elim (Bool-cases
                (key.direction == EventDirection.flat || is_in (flat_key key) stolen)) [
                  | inl b ↦ rw (e, b, resolve_identity) (made_new-Claimed now key stolen c v)
                  | inr b ↦
                      rw (e, b, resolve_identity)
                        (take_flat-Claimed now key (still_live cutoff (get (flat_key key) c.active))
                          stolen c v
                          (λ s q. found_if_live cutoff (get (flat_key key) c.active) s q))
                ]
        ]
