-- ===== src/Composer/Consumed.antt =====
-- The well-formedness of a composer through `consume_batch`, from a composer that is well formed.
use market_sentinel.Base.{
  ℕ, String, ◌≡◌, refl, Option, none, some, List, [], ◌∷◌, ◌++◌, arith, Bool-cases, inl, inr, last?,
  last?-cons, or_else, any,
}
use market_sentinel.Base.Eq.{string_eq}
use market_sentinel.Base.Dict.{Dict, get, set}
use market_sentinel.Base.Float.{Float, sub}
use market_sentinel.Domain.{
  Lineage, EventDirection, Family, SignalPriority, MarketEvent, MarketFeatures,
}
use market_sentinel.Cluster.{
  classify_family, Episode, lineage_of, partition_lineage_episodes, resolve_none_target,
}
use market_sentinel.Priority.{Formats, compose_priority, render_copy, title_of, join, facts_of}
use market_sentinel.Composer.{
  EpisodeKey, SignalComposer, Identity, recent_events, event_ids_of, prune_active, resolve_identity,
}
use market_sentinel.Composer.Batch.{
  Produced, Working, contains_id, is_lineage, of_lineage, has_live, both, one, prepend,
  without_stolen, by_symbol, composed, compose_episode, compose_one, compose_each, consume_lineage,
  consume_symbol, consume_groups, consume_batch, max_time, events_for_partition,
}
use market_sentinel.Composer.Valid.{IsValid}
use market_sentinel.Composer.Pruning.{prune_active-IsValid}
use market_sentinel.Composer.Identities.{Claimed, store_episode-IsValid, resolve_identity-Claimed}

module _ {F : Type 0} (uuid : ℕ → String) where
  -- a step that answers, and leaves a well-formed composer
  abbrev pub Good : {A : Type 0} → Option (A × Working F) → Type 0
  Good none = ⊥
  Good (some (p, w)) = IsValid uuid w.1

  -- the same of a whole batch
  abbrev pub Done : {A : Type 0} → Option (A × SignalComposer F) → Type 0
  Done none = ⊥
  Done (some (p, c)) = IsValid uuid c

module _ {F : Type 0} {A : Type 0} (uuid : ℕ → String) where
  pub prepend-Good :
      (ps : List A) (o : Option (List A × Working F)) → Good uuid o → Good uuid (prepend ps o)
  prepend-Good ps none g = g
  prepend-Good ps (some (qs, w)) g = g

  pub both-Good :
      (o : Option (List A × Working F)) (next : Working F → Option (List A × Working F))
      → Good uuid o
      → ((w : Working F) → IsValid uuid w.1 → Good uuid (next w))
      → Good uuid (both o next)
  both-Good none next g h = absurd g
  both-Good (some (ps, w)) next g h = prepend-Good ps (next w) (h w g)

  one-Good : (o : Option (A × Working F)) → Good uuid o → Good uuid (one o)
  one-Good none g = g
  one-Good (some (p, w)) g = g

  prepend-Done :
      (ps : List A) (o : Option (List A × SignalComposer F))
      → Done uuid o
      → Done uuid (prepend ps o)
  prepend-Done ps none g = g
  prepend-Done ps (some (qs, c)) g = g

  both-Done :
      (o : Option (List A × SignalComposer F))
      (next : SignalComposer F → Option (List A × SignalComposer F))
      → Done uuid o
      → ((c : SignalComposer F) → IsValid uuid c → Done uuid (next c))
      → Done uuid (both o next)
  both-Done none next g h = absurd g
  both-Done (some (ps, c)) next g h = prepend-Done ps (next c) (h c g)

module _ {F : Type 0} ⦃f : Float F⦄ (uuid : ℕ → String)
    (unique : (i j : ℕ) → uuid i ≡ uuid j → i ≡ j) (fmt : Formats F) (now : F) where
  composed-Good :
      (key : EpisodeKey) (members : List (MarketEvent F)) (features : MarketFeatures F)
      (i : Identity F) (priority : SignalPriority × String) (copy : String × String)
      (latest : MarketEvent F)
      → Claimed uuid key i
      → Good uuid
          (composed uuid fmt now key members features i (some priority) (some copy) (some latest))
  composed-Good key members features i (priority, reason) copy latest claimed =
      store_episode-IsValid uuid key _ i.composer claimed.valid claimed.made claimed.owned
        (record { symbol = refl; direction = refl; same_id = refl; same_events = refl })

  pub copy_of_members :
      (m : MarketEvent F) (ms : List (MarketEvent F)) (family : Family)
      (features : MarketFeatures F)
      → (copy : String × String) × (render_copy fmt (m ∷ ms) family features ≡ some copy)
  unfolding render_copy
  copy_of_members m ms family features = (
    (title_of (or_else (last? ms) m).symbol family, join "，" (facts_of fmt (m ∷ ms) features)),
    rw (last?-cons m ms, render_copy) refl,
  )

  pub compose_episode-Good :
      (key : EpisodeKey) (m : MarketEvent F) (ms : List (MarketEvent F))
      (features : MarketFeatures F) (now_ts : F) (w : Working F)
      → IsValid uuid w.1
      → Good uuid (compose_episode uuid fmt now key (m ∷ ms) features now_ts w)
  unfolding compose_episode compose_priority
  compose_episode-Good key m ms features now_ts (stolen, c) v =
      let (copy, e) = copy_of_members m ms (classify_family (m ∷ ms)) features in
      rw (e, last?-cons m ms)
        (composed-Good key (m ∷ ms) features (resolve_identity uuid now key now_ts stolen c) _ copy
          (or_else (last? ms) m) (resolve_identity-Claimed uuid unique now now_ts key stolen c v))

  pub compose_one-Good :
      (symbol : String) (lineage : Lineage) (ids : List String) (features : MarketFeatures F)
      (now_ts : F) (e : Episode F) (w : Working F)
      → IsValid uuid w.1
      → Good uuid (compose_one uuid fmt now symbol lineage ids features now_ts e w)
  unfolding compose_one
  compose_one-Good symbol lineage ids features now_ts (direction, []) w v = v
  compose_one-Good symbol lineage ids features now_ts (direction, m ∷ ms) w v =
      elim (Bool-cases (any (λ i. contains_id i.id ids) (m ∷ ms))) [
        | inl on ↦
            let key : EpisodeKey = record {
              symbol = symbol;
              lineage = lineage;
              direction = direction;
            } in
            rw on (
              one-Good uuid (compose_episode uuid fmt now key (m ∷ ms) features now_ts w)
                (compose_episode-Good key m ms features now_ts w v))
        | inr off ↦ rw off v
      ]

  pub compose_each-Good :
      (symbol : String) (lineage : Lineage) (ids : List String) (features : MarketFeatures F)
      (now_ts : F) (es : List (Episode F)) (w : Working F)
      → IsValid uuid w.1
      → Good uuid (compose_each uuid fmt now symbol lineage ids features now_ts es w)
  unfolding compose_each
  compose_each-Good symbol lineage ids features now_ts [] w v = v
  compose_each-Good symbol lineage ids features now_ts (e ∷ es) w v =
      both-Good uuid (compose_one uuid fmt now symbol lineage ids features now_ts e w)
        (compose_each uuid fmt now symbol lineage ids features now_ts es)
        (compose_one-Good symbol lineage ids features now_ts e w v)
        (compose_each-Good symbol lineage ids features now_ts es)

  pub consume_lineage-Good :
      (symbol : String) (recent batch : List (MarketEvent F)) (features : MarketFeatures F)
      (now_ts : F) (lineage : Lineage) (w : Working F)
      → IsValid uuid w.1
      → Good uuid (consume_lineage uuid fmt now symbol recent batch features now_ts lineage w)
  unfolding consume_lineage
  consume_lineage-Good symbol recent batch features now_ts lineage (stolen, c) v =
      let ours = of_lineage lineage batch in
      let near = of_lineage lineage recent in
      let target =
        resolve_none_target ours near (has_live symbol lineage EventDirection.up c.active)
          (has_live symbol lineage EventDirection.down c.active) in
      let episodes =
        partition_lineage_episodes (events_for_partition symbol lineage near ours target c)
          target in
      elim (Bool-cases (any (λ i. is_lineage (lineage_of i.type) lineage) batch)) [
        | inl on ↦ rw on (
            compose_each-Good symbol lineage (event_ids_of batch) features now_ts episodes
              (stolen, c) v)
        | inr off ↦ rw off v
      ]

  without_stolen-Done :
      (o : Option (List (Produced F) × Working F)) → Good uuid o → Done uuid (without_stolen o)
  without_stolen-Done none g = g
  without_stolen-Done (some (ps, (stolen, c))) g = g

  consume_symbol-Done :
      (symbol : String) (b : MarketEvent F) (bs : List (MarketEvent F))
      (features : MarketFeatures F) (c : SignalComposer F)
      → IsValid uuid c
      → Done uuid (consume_symbol uuid fmt now symbol (b ∷ bs) features c)
  unfolding consume_symbol
  consume_symbol-Done symbol b bs features c v =
      let batch = b ∷ bs in
      let now_ts = max_time b.market_timestamp bs in
      let recent =
        recent_events (sub now_ts c.lookback_s) (or_else (get symbol c.accepted) [] ++ batch) in
      let d : SignalComposer F = record c { accepted = set symbol recent c.accepted } in
      let kept : IsValid uuid d = record {
        unique = v.unique;
        keyed = v.keyed;
        made_before = v.made_before;
        distinct = v.distinct;
        traced = v.traced;
      } in
      without_stolen-Done _ (
        both-Good uuid
          (consume_lineage uuid fmt now symbol recent batch features now_ts Lineage.tape
            ([], prune_active now_ts d))
          (consume_lineage uuid fmt now symbol recent batch features now_ts Lineage.vwap)
          (consume_lineage-Good symbol recent batch features now_ts Lineage.tape
            ([], prune_active now_ts d) (prune_active-IsValid uuid now_ts d kept))
          (consume_lineage-Good symbol recent batch features now_ts Lineage.vwap))

  -- no group is empty
  abbrev Full : Dict String (List (MarketEvent F)) → Type 0
  Full [] = Unit
  Full ((k, []) ∷ groups) = ⊥
  Full ((k, b ∷ bs) ∷ groups) = Full groups

  Full-set :
      (k : String) (xs : List (MarketEvent F)) (e : MarketEvent F)
      (groups : Dict String (List (MarketEvent F)))
      → Full groups
      → Full (set k (xs ++ (e ∷ [])) groups)
  unfolding set
  Full-set k [] e [] h = tt
  Full-set k (x ∷ xs) e [] h = tt
  Full-set k xs e ((j, []) ∷ groups) h = absurd h
  Full-set k [] e ((j, b ∷ bs) ∷ groups) h = ground (arith, Full-set k [] e groups h)
  Full-set k (x ∷ xs) e ((j, b ∷ bs) ∷ groups) h = ground (arith, Full-set k (x ∷ xs) e groups h)

  by_symbol-Full :
      (es : List (MarketEvent F)) (groups : Dict String (List (MarketEvent F)))
      → Full groups
      → Full (by_symbol es groups)
  unfolding by_symbol
  by_symbol-Full [] groups h = h
  by_symbol-Full (e ∷ es) groups h =
      by_symbol-Full es (set e.symbol (or_else (get e.symbol groups) [] ++ (e ∷ [])) groups)
        (Full-set e.symbol (or_else (get e.symbol groups) []) e groups h)

  consume_groups-Done :
      (groups : Dict String (List (MarketEvent F))) (features : MarketFeatures F)
      (c : SignalComposer F)
      → Full groups
      → IsValid uuid c
      → Done uuid (consume_groups uuid fmt now groups features c)
  unfolding consume_groups
  consume_groups-Done [] features c h v = v
  consume_groups-Done ((k, []) ∷ groups) features c h v = absurd h
  consume_groups-Done ((k, b ∷ bs) ∷ groups) features c h v =
      both-Done uuid (consume_symbol uuid fmt now k (b ∷ bs) features c)
        (consume_groups uuid fmt now groups features) (consume_symbol-Done k b bs features c v)
        (λ d w. consume_groups-Done groups features d h w)

  answer_of :
      (o : Option (List (Produced F) × SignalComposer F))
      → Done uuid o
      → (p : List (Produced F)) × (d : SignalComposer F) × (o ≡ some (p, d)) × IsValid uuid d
  answer_of none g = absurd g
  answer_of (some (p, d)) g = (p, d, refl, g)

  -- On a well-formed composer, with identifiers that never repeat, `consume_batch` raises nothing for
  -- any events, and leaves a well-formed composer: each live signal stands under its symbol and
  -- direction, no two live signals have the same identifier, and each has its trace.
  pub consume_batch-IsValid :
      (events : List (MarketEvent F)) (features : MarketFeatures F) (c : SignalComposer F)
      → IsValid uuid c
      → (p : List (Produced F)) × (d : SignalComposer F) × (consume_batch uuid fmt now events
            features c
          ≡ some (p, d))
        × IsValid uuid d
  unfolding consume_batch
  consume_batch-IsValid events features c v =
      answer_of _
        (consume_groups-Done (by_symbol events []) features c (by_symbol-Full events [] tt) v)
