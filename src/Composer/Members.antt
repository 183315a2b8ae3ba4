-- ===== src/Composer/Members.antt =====
-- A new event is among the events that are chosen for the episodes, and has no home after pruning.
use mathlib.Core.List.{Mem, mem-cons_of_mem}
use mathlib.Core.Logic.{∥∥₁_elim}
use mathlib.Core.Bool.{Bool-set}
use mathlib.Core.List.Perm
use mathlib.Core.List.{Memᴰ}
use market_sentinel.Base.{
  String, ◌≡◌, refl, subst, ◌⊎◌, inl, inr, Bool, true, not, ◌||◌, none, List, [], ◌∷◌, ◌++◌, arith,
  Bool-cases, Option-cases, filter,
}
use market_sentinel.Base.Eq.{string_eq, ◌==◌, beq_refl}
use market_sentinel.Base.Dict.{Dict, get, pop, get-pop}
use market_sentinel.Base.Float.{Float, sub}
use market_sentinel.Domain.{Lineage, EventDirection, direction_eq, MarketEvent}
use market_sentinel.Cluster.{partition_lineage_episodes}
use market_sentinel.Cluster.Episodes.{all_members, partition-perm}
use market_sentinel.Composer.Batch.{contains_id, has_place, events_for_partition}
use market_sentinel.Composer.{
  event_ids_of, EpisodeKey, key_eq, SignalComposer, drop_homes, forget, forget_all, prune_active,
  expired,
}
use market_sentinel.Composer.Found.{has_id}

-- the event is one of the list
abbrev pub In : {F : Type 0} → MarketEvent F → List (MarketEvent F) → Type 0
In x [] = ⊥
In x (y ∷ ys) = (x ≡ y) ⊎ In x ys

-- an identifier without a home has none after pruning
drop_homes-none :
    (id : String) (key : EpisodeKey) (ids : List String) (home : Dict String EpisodeKey)
    → get id home ≡ none
    → get id (drop_homes key ids home) ≡ none
unfolding drop_homes
drop_homes-none id key [] home h = h
drop_homes-none id key (i ∷ ids) home h = elim (Option-cases (get i home)) [
  | inl e ↦ rw (e, drop_homes) (drop_homes-none id key ids home h)
  | inr (k, e) ↦ elim (Bool-cases (k == key)) [
    | inl q ↦
        rw (e, q, drop_homes)
          (drop_homes-none id key ids (pop i home) (ground (arith, get-pop i id home, h)))
    | inr q ↦ rw (e, q, drop_homes) (drop_homes-none id key ids home h)
  ]
]

module _ {F : Type 0} where
  pub In-append_right : (x : MarketEvent F) (xs : List (MarketEvent F)) → In x (xs ++ (x ∷ []))
  In-append_right x [] = inl refl
  In-append_right x (y ∷ ys) = inr (In-append_right x ys)

  pub In-filter :
      (p : MarketEvent F → Bool) (x : MarketEvent F) (xs : List (MarketEvent F))
      → p x ≡ true
      → In x xs
      → In x (filter p xs)
  In-filter p x [] h i = i
  In-filter p x (y ∷ ys) h (inl e) = rw (subst (λ z. p z ≡ true) e h) (inl e)
  In-filter p x (y ∷ ys) h (inr i) = elim (Bool-cases (p y)) [
    | inl q ↦ rw q (inr (In-filter p x ys h i))
    | inr q ↦ rw q (In-filter p x ys h i)
  ]

  Mem-In : (x : MarketEvent F) (xs : List (MarketEvent F)) → In x xs → Mem x xs
  Mem-In x [] i = absurd i
  Mem-In x (y ∷ ys) (inl e) = ∣ Memᴰ.head e ∣₁
  Mem-In x (y ∷ ys) (inr i) = mem-cons_of_mem y (Mem-In x ys i)

  has_id-Memᴰ : (x : MarketEvent F) (xs : List (MarketEvent F)) → Memᴰ x xs → has_id x.id xs ≡ true
  has_id-Memᴰ x [] m = elim m [ ]
  has_id-Memᴰ x (y ∷ ys) (Memᴰ.head e) =
      rw (subst (λ z. (z.id == x.id) ≡ true) e (beq_refl x.id)) refl
  has_id-Memᴰ x (y ∷ ys) (Memᴰ.tail m) = ground (arith, has_id-Memᴰ x ys m)

  has_id-Mem : (x : MarketEvent F) (xs : List (MarketEvent F)) → Mem x xs → has_id x.id xs ≡ true
  has_id-Mem x xs m = ∥∥₁_elim m (Bool-set (has_id x.id xs) true) (λ d. has_id-Memᴰ x xs d)

  forget-none :
      (id : String) (key : EpisodeKey) (c : SignalComposer F)
      → get id c.home ≡ none
      → get id (forget key c).home ≡ none
  unfolding forget
  forget-none id key c h = elim (Option-cases (get key c.active)) [
    | inl e ↦ rw (e, forget) h
    | inr (s, e) ↦ rw (e, forget) (drop_homes-none id key s.event_ids c.home h)
  ]

  forget_all-none :
      (id : String) (keys : List EpisodeKey) (c : SignalComposer F)
      → get id c.home ≡ none
      → get id (forget_all keys c).home ≡ none
  unfolding forget_all
  forget_all-none id [] c h = h
  forget_all-none id (k ∷ ks) c h = forget_all-none id ks (forget k c) (forget-none id k c h)

module _ {F : Type 0} ⦃f : Float F⦄ where
  pub prune_active-none :
      (id : String) (now_ts : F) (c : SignalComposer F)
      → get id c.home ≡ none
      → get id (prune_active now_ts c).home ≡ none
  unfolding prune_active
  prune_active-none id now_ts c h =
      forget_all-none id (expired (sub now_ts c.lookback_s) c.active) c h

  -- the event is in some episode of the partition
  pub partition-has_id :
      (e : MarketEvent F) (recent : List (MarketEvent F)) (target : EventDirection)
      → In e recent
      → has_id e.id (all_members (partition_lineage_episodes recent target)) ≡ true
  partition-has_id e recent target i =
      has_id-Mem e (all_members (partition_lineage_episodes recent target))
        ((Perm.mem_iff (partition-perm recent target)).1 (Mem-In e recent i))

  -- the events that are chosen for the partition have the new one among them
  pub chosen_new :
      (symbol : String) (lineage : Lineage) (e : MarketEvent F) (near : List (MarketEvent F))
      (target : EventDirection) (c : SignalComposer F)
      → get e.id c.home ≡ none
      → In e near
      → In e (events_for_partition symbol lineage near (e ∷ []) target c)
  unfolding events_for_partition
  chosen_new symbol lineage e near target c h i =
      In-filter
        (λ x.
          not (x.direction == EventDirection.flat)
          || has_place symbol lineage target (contains_id x.id (event_ids_of (e ∷ [])))
              (get x.id c.home))
        e near (rw h (ground (arith, beq_refl e.id))) i
