-- ===== src/Composer/Consume.antt =====
-- `consume` of a single event that is none of those before it.
use mathlib.Core.List.{append-nil}
use market_sentinel.Base.{
  ℕ, String, ◌≡◌, refl, subst, inl, inr, true, false, Option, none, some, List, [], ◌∷◌, ◌++◌,
  arith, Bool-cases, or_else,
}
use market_sentinel.Base.Eq.{string_eq, beq_refl}
use market_sentinel.Base.Dict.{get, set}
use market_sentinel.Base.Float.{Float, IsMonotone, le, sub, num, ◌≼◌}
use market_sentinel.Domain.{Lineage, EventDirection, direction_eq, MarketEvent, MarketFeatures}
use market_sentinel.Cluster.{partition_lineage_episodes, lineage_of, resolve_none_target}
use market_sentinel.Priority.{Formats}
use market_sentinel.Composer.Batch.{
  Produced, Working, contains_id, is_lineage, of_lineage, has_live, both, without_stolen,
  events_for_partition, consume_lineage, consume_symbol, consume_groups, by_symbol, consume_batch,
  consume, first_with,
}
use market_sentinel.Composer.{event_ids_of, recent_events, key_eq, SignalComposer, prune_active}
use market_sentinel.Composer.Valid.{IsValid}
use market_sentinel.Composer.Pruning.{prune_active-IsValid}
use market_sentinel.Composer.Consumed.{consume_lineage-Good}
use market_sentinel.Composer.Found.{
  holds, Found, both-Found_first, prepend-Found_rest, compose_each-Found,
}
use market_sentinel.Composer.Members.{
  In, In-append_right, In-filter, prune_active-none, partition-has_id, chosen_new,
}

-- what `consume_groups` makes of its only group
abbrev prepend_all :
    {F : Type 0}
    → Option (List (Produced F) × SignalComposer F)
    → Option (List (Produced F) × SignalComposer F)
prepend_all none = none
prepend_all (some (ps, c)) = some (ps ++ [], c)

both-last :
    {F : Type 0} (o : Option (List (Produced F) × SignalComposer F))
    → both o (λ (c : SignalComposer F). some ([], c)) ≡ prepend_all o
both-last none = refl
both-last (some (ps, c)) = refl

module _ {F : Type 0} ⦃f : Float F⦄ (uuid : ℕ → String)
    (unique : (i j : ℕ) → uuid i ≡ uuid j → i ≡ j) (fmt : Formats F) (now : F) where
  consume_lineage-Found :
      (symbol : String) (e : MarketEvent F) (recent : List (MarketEvent F))
      (features : MarketFeatures F) (now_ts : F) (lineage : Lineage) (w : Working F)
      → IsValid uuid w.1
      → is_lineage (lineage_of e.type) lineage ≡ true
      → get e.id w.1.home ≡ none
      → In e recent
      → Found e.id (consume_lineage uuid fmt now symbol recent (e ∷ []) features now_ts lineage w)
  unfolding consume_lineage
  consume_lineage-Found symbol e recent features now_ts lineage (stolen, c) v same h i =
      let near = of_lineage lineage recent in
      let target =
        resolve_none_target (e ∷ []) near (has_live symbol lineage EventDirection.up c.active)
          (has_live symbol lineage EventDirection.down c.active) in
      let chosen = events_for_partition symbol lineage near (e ∷ []) target c in
      rw same (
        compose_each-Found uuid unique fmt now e.id symbol lineage (event_ids_of (e ∷ [])) features
          now_ts (partition_lineage_episodes chosen target) (stolen, c) v (rw (beq_refl e.id) refl)
          (partition-has_id e chosen target (
            chosen_new symbol lineage e near target c h
              (In-filter (λ x. is_lineage (lineage_of x.type) lineage) e recent same i))))

  consume_lineage-skip :
      (symbol : String) (e : MarketEvent F) (recent : List (MarketEvent F))
      (features : MarketFeatures F) (now_ts : F) (lineage : Lineage) (w : Working F)
      → is_lineage (lineage_of e.type) lineage ≡ false
      → consume_lineage uuid fmt now symbol recent (e ∷ []) features now_ts lineage w ≡ some ([], w)
  unfolding consume_lineage
  consume_lineage-skip symbol e recent features now_ts lineage (stolen, c) off = rw off refl

  -- both turns of the loop over the lineages
  both-Found :
      (symbol : String) (e : MarketEvent F) (recent : List (MarketEvent F))
      (features : MarketFeatures F) (now_ts : F) (l : Lineage) (w : Working F)
      → lineage_of e.type ≡ l
      → IsValid uuid w.1
      → get e.id w.1.home ≡ none
      → In e recent
      → Found e.id (
          both
            (consume_lineage uuid fmt now symbol recent (e ∷ []) features now_ts Lineage.tape w)
            (consume_lineage uuid fmt now symbol recent (e ∷ []) features now_ts Lineage.vwap))
  both-Found symbol e recent features now_ts Lineage.tape w q v h i =
      both-Found_first uuid e.id
        (consume_lineage uuid fmt now symbol recent (e ∷ []) features now_ts Lineage.tape w)
        (consume_lineage uuid fmt now symbol recent (e ∷ []) features now_ts Lineage.vwap)
        (consume_lineage-Found symbol e recent features now_ts Lineage.tape w v (rw q refl) h i)
        (consume_lineage-Good uuid unique fmt now symbol recent (e ∷ []) features now_ts
          Lineage.tape w v)
        (consume_lineage-Good uuid unique fmt now symbol recent (e ∷ []) features now_ts
          Lineage.vwap)
  both-Found symbol e recent features now_ts Lineage.vwap w q v h i =
      rw (consume_lineage-skip symbol e recent features now_ts Lineage.tape w (rw q refl)) (
        prepend-Found_rest e.id []
          (consume_lineage uuid fmt now symbol recent (e ∷ []) features now_ts Lineage.vwap w)
          (consume_lineage-Found symbol e recent features now_ts Lineage.vwap w v (rw q refl) h i))

  -- a signal that holds the event is found in what a step produced
  first_with-answer :
      (id : String) (ps : List (Produced F)) (c : SignalComposer F)
      → holds id ps ≡ true
      → (p : Produced F) × (first_with id ps c ≡ some (p, c))
        × (contains_id id p.0.event_ids ≡ true)
  first_with-answer id [] c h = absurd (ground arith)
  first_with-answer id ((s, t) ∷ ps) c h = elim (Bool-cases (contains_id id s.event_ids)) [
    | inl e ↦ ((s, t), rw e refl, e)
    | inr e ↦ rw e (first_with-answer id ps c (ground (arith, h, e)))
  ]

  consume_answer :
      (e : MarketEvent F) (features : MarketFeatures F) (c : SignalComposer F)
      (o : Option (List (Produced F) × Working F))
      → consume_batch uuid fmt now (e ∷ []) features c ≡ prepend_all (without_stolen o)
      → Found e.id o
      → (p : Produced F) × (d : SignalComposer F) × (consume uuid fmt now e features c
          ≡ some (p, d))
        × (contains_id e.id p.0.event_ids ≡ true)
  unfolding consume
  consume_answer e features c none q h = absurd h
  consume_answer e features c (some (ps, (stolen, d))) q h =
      let (p, answer, has) = first_with-answer e.id ps d h in
      (p, d, rw (q, append-nil ps, consume) answer, has)

  module _ (mono : IsMonotone F) where
    -- An event whose identifier has no home yet is always composed: with identifiers that never repeat,
    -- on a well-formed composer whose look-back is not negative, `consume` raises nothing, and answers a
    -- signal that holds the event.
    pub consume-Found :
        (e : MarketEvent F) (features : MarketFeatures F) (c : SignalComposer F)
        → IsValid uuid c
        → get e.id c.home ≡ none
        → num 0 ≼ c.lookback_s
        → (p : Produced F) × (d : SignalComposer F) × (consume uuid fmt now e features c
            ≡ some (p, d))
          × (contains_id e.id p.0.event_ids ≡ true)
    unfolding consume_batch consume_groups consume_symbol by_symbol get set
    consume-Found e features c v h back =
        let now_ts = e.market_timestamp in
        let cutoff = sub now_ts c.lookback_s in
        let near : cutoff ≼ now_ts =
          subst (λ z. cutoff ≼ z) (mono.sub_zero now_ts)
            (mono.sub_anti (num 0) c.lookback_s now_ts back) in
        let history = or_else (get e.symbol c.accepted) [] in
        let recent = recent_events cutoff (history ++ (e ∷ [])) in
        let held : In e recent =
          In-filter (λ i. le cutoff i.market_timestamp) e (history ++ (e ∷ [])) near
            (In-append_right e history) in
        let d : SignalComposer F = record c { accepted = set e.symbol recent c.accepted } in
        let kept : IsValid uuid d = record {
          unique = v.unique;
          keyed = v.keyed;
          made_before = v.made_before;
          distinct = v.distinct;
          traced = v.traced;
        } in
        let turns =
          both
            (consume_lineage uuid fmt now e.symbol recent (e ∷ []) features now_ts Lineage.tape
              ([], prune_active now_ts d))
            (consume_lineage uuid fmt now e.symbol recent (e ∷ []) features now_ts Lineage.vwap) in
        consume_answer e features c turns (both-last (without_stolen turns)) (
          both-Found e.symbol e recent features now_ts (lineage_of e.type)
            ([], prune_active now_ts d) refl (prune_active-IsValid uuid now_ts d kept)
            (prune_active-none e.id now_ts d h) held)
