-- ===== src/Composer/Found.antt =====
-- The signal in which the composer puts a single new event, for a composer that is well formed.
use market_sentinel.Base.{
  ℕ, String, ◌≡◌, refl, ap, inl, inr, Bool, true, false, ◌||◌, Option, none, some, List, [], ◌∷◌,
  ◌++◌, arith, Bool-cases, last?-cons, any,
}
use market_sentinel.Base.Eq.{string_eq, ◌==◌}
use market_sentinel.Base.Float.{Float}
use market_sentinel.Domain.{Lineage, EventDirection, MarketEvent, MarketFeatures}
use market_sentinel.Cluster.{classify_family, Episode}
use market_sentinel.Cluster.Episodes.{all_members}
use market_sentinel.Priority.{Formats, compose_priority}
use market_sentinel.Composer.{EpisodeKey, event_ids_of}
use market_sentinel.Composer.Batch.{
  Produced, Working, contains_id, both, one, prepend, compose_episode, compose_one, compose_each,
}
use market_sentinel.Composer.Valid.{IsValid}
use market_sentinel.Composer.Consumed.{Good, compose_one-Good, compose_each-Good, copy_of_members}

-- some event has the identifier
abbrev pub has_id : {F : Type 0} → String → List (MarketEvent F) → Bool
has_id id [] = false
has_id id (e ∷ es) = (e.id == id) || has_id id es

module _ {F : Type 0} where
  -- some signal holds the event
  abbrev pub holds : String → List (Produced F) → Bool
  holds id [] = false
  holds id ((s, t) ∷ ps) = contains_id id s.event_ids || holds id ps

  has_id-append :
      (id : String) (xs ys : List (MarketEvent F))
      → has_id id (xs ++ ys) ≡ (has_id id xs || has_id id ys)
  has_id-append id [] ys = refl
  has_id-append id (x ∷ xs) ys = ground (arith, has_id-append id xs ys)

  holds-append :
      (id : String) (ps qs : List (Produced F)) → holds id (ps ++ qs) ≡ (holds id ps || holds id qs)
  holds-append id [] qs = refl
  holds-append id (p ∷ ps) qs = ground (arith, holds-append id ps qs)

  pub contains-event_ids_of :
      (id : String) (es : List (MarketEvent F)) → contains_id id (event_ids_of es) ≡ has_id id es
  contains-event_ids_of id [] = refl
  contains-event_ids_of id (e ∷ es) = ap (λ b. (e.id == id) || b) (contains-event_ids_of id es)

  -- an episode with a new event passes the test of the loop
  any_new :
      (id : String) (ids : List String) (es : List (MarketEvent F))
      → contains_id id ids ≡ true
      → has_id id es ≡ true
      → any (λ i. contains_id i.id ids) es ≡ true
  any_new id ids [] n h = h
  any_new id ids (e ∷ es) n h = ground (arith, n, h, string_eq.beq_iff e.id id, any_new id ids es n)

  -- a step that answers with a signal that holds the event
  abbrev pub Found : String → Option (List (Produced F) × Working F) → Type 0
  Found id none = ⊥
  Found id (some (ps, w)) = holds id ps ≡ true

  prepend-Found_first :
      (uuid : ℕ → String) (id : String) (ps : List (Produced F))
      (o : Option (List (Produced F) × Working F))
      → holds id ps ≡ true
      → Good uuid o
      → Found id (prepend ps o)
  prepend-Found_first uuid id ps none h g = g
  prepend-Found_first uuid id ps (some (qs, w)) h g = ground (arith, holds-append id ps qs)

  pub prepend-Found_rest :
      (id : String) (ps : List (Produced F)) (o : Option (List (Produced F) × Working F))
      → Found id o
      → Found id (prepend ps o)
  prepend-Found_rest id ps none h = h
  prepend-Found_rest id ps (some (qs, w)) h = ground (arith, holds-append id ps qs)

  pub both-Found_first :
      (uuid : ℕ → String) (id : String) (o : Option (List (Produced F) × Working F))
      (next : Working F → Option (List (Produced F) × Working F))
      → Found id o
      → Good uuid o
      → ((w : Working F) → IsValid uuid w.1 → Good uuid (next w))
      → Found id (both o next)
  both-Found_first uuid id none next h g k = h
  both-Found_first uuid id (some (ps, w)) next h g k =
      prepend-Found_first uuid id ps (next w) h (k w g)

  pub both-Found_rest :
      (uuid : ℕ → String) (id : String) (o : Option (List (Produced F) × Working F))
      (next : Working F → Option (List (Produced F) × Working F))
      → Good uuid o
      → ((w : Working F) → IsValid uuid w.1 → Found id (next w))
      → Found id (both o next)
  both-Found_rest uuid id none next g k = absurd g
  both-Found_rest uuid id (some (ps, w)) next g k = prepend-Found_rest id ps (next w) (k w g)

module _ {F : Type 0} ⦃f : Float F⦄ (uuid : ℕ → String)
    (unique : (i j : ℕ) → uuid i ≡ uuid j → i ≡ j) (fmt : Formats F) (now : F) (id : String) where
  compose_episode-Found :
      (key : EpisodeKey) (m : MarketEvent F) (ms : List (MarketEvent F))
      (features : MarketFeatures F) (now_ts : F) (w : Working F)
      → has_id id (m ∷ ms) ≡ true
      → Found id (one (compose_episode uuid fmt now key (m ∷ ms) features now_ts w))
  unfolding compose_episode compose_priority
  compose_episode-Found key m ms features now_ts (stolen, c) h =
      let (copy, e) =
        copy_of_members uuid unique fmt now m ms (classify_family (m ∷ ms)) features in
      rw (e, last?-cons m ms) (ground (arith, contains-event_ids_of id (m ∷ ms)))

  compose_one-Found :
      (symbol : String) (lineage : Lineage) (ids : List String) (features : MarketFeatures F)
      (now_ts : F) (d : EventDirection) (es : List (MarketEvent F)) (w : Working F)
      → contains_id id ids ≡ true
      → has_id id es ≡ true
      → Found id (compose_one uuid fmt now symbol lineage ids features now_ts (d, es) w)
  unfolding compose_one
  compose_one-Found symbol lineage ids features now_ts d [] w n h = ground arith
  compose_one-Found symbol lineage ids features now_ts d (m ∷ ms) w n h =
      rw (any_new id ids (m ∷ ms) n h) (
        compose_episode-Found (record { symbol = symbol; lineage = lineage; direction = d }) m ms
          features now_ts w h)

  -- a new event of an episode is in a signal that the loop over the episodes produces
  pub compose_each-Found :
      (symbol : String) (lineage : Lineage) (ids : List String) (features : MarketFeatures F)
      (now_ts : F) (es : List (Episode F)) (w : Working F)
      → IsValid uuid w.1
      → contains_id id ids ≡ true
      → has_id id (all_members es) ≡ true
      → Found id (compose_each uuid fmt now symbol lineage ids features now_ts es w)
  unfolding compose_each
  compose_each-Found symbol lineage ids features now_ts [] w v n h = ground arith
  compose_each-Found symbol lineage ids features now_ts ((d, m) ∷ es) w v n h =
      let first = compose_one uuid fmt now symbol lineage ids features now_ts (d, m) w in
      let rest = compose_each uuid fmt now symbol lineage ids features now_ts es in
      let good =
        compose_one-Good uuid unique fmt now symbol lineage ids features now_ts (d, m) w v in
      elim (Bool-cases (has_id id m)) [
        | inl e ↦
            both-Found_first uuid id first rest
              (compose_one-Found symbol lineage ids features now_ts d m w n e) good
              (compose_each-Good uuid unique fmt now symbol lineage ids features now_ts es)
        | inr e ↦ both-Found_rest uuid id first rest good (λ w' v'.
            compose_each-Found symbol lineage ids features now_ts es w' v' n
              (ground (arith, has_id-append id m (all_members es))))
      ]
