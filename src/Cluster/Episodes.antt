-- ===== src/Cluster/Episodes.antt =====
-- The split of a lineage's events into directional episodes.
use mathlib.Core.List.{Perm, perm_append_comm, perm_middle, append-nil, append_assoc}
use mathlib.Core.List.Perm
use market_sentinel.Base.{
  ◌≡◌, refl, sym, ap, ◌∙◌, ◌⊎◌, inl, inr, true, List, [], ◌∷◌, ◌++◌, All, All-append,
  All-filter_test, All-map_imp, Bool-cases,
}
use market_sentinel.Base.Eq.{◌==◌}
use market_sentinel.Base.Float.{Float, IsOrdered}
use market_sentinel.Domain.{EventDirection, direction_eq, MarketEvent}
use market_sentinel.Cluster.{
  Episode, sort_by_key, going, nones_for, episode_of, partition_lineage_episodes,
}
use market_sentinel.Cluster.Sorting.{sort_by_key-perm, InTime, sort_by_key-InTime, All-sort}

module _ {F : Type 0} where
  -- the members of all episodes, one episode after another
  abbrev pub all_members : List (Episode F) → List (MarketEvent F)
  all_members [] = []
  all_members ((d, es) ∷ rest) = es ++ all_members rest

  all_members-append :
      (es ds : List (Episode F)) → all_members (es ++ ds) ≡ all_members es ++ all_members ds
  all_members-append [] ds = refl
  all_members-append ((d, m) ∷ es) ds =
      ap (λ x. m ++ x) (all_members-append es ds)
      ∙ sym (append_assoc m (all_members es) (all_members ds))

  -- the events of a list by direction: flat, up, down
  abbrev by_direction : List (MarketEvent F) → List (MarketEvent F)
  by_direction xs =
      going EventDirection.flat xs ++ (going EventDirection.up xs ++ going EventDirection.down xs)

  by_direction-cons :
      (x : MarketEvent F) (xs : List (MarketEvent F)) (d : EventDirection)
      → x.direction ≡ d
      → Perm (by_direction (x ∷ xs)) (x ∷ by_direction xs)
  by_direction-cons x xs EventDirection.up e = simp e (
      perm_middle (going EventDirection.flat xs)
        (going EventDirection.up xs ++ going EventDirection.down xs))
  by_direction-cons x xs EventDirection.down e = simp e (
      Perm.trans
        (Perm.append_left (going EventDirection.flat xs)
          (perm_middle (going EventDirection.up xs) (going EventDirection.down xs)))
        (perm_middle (going EventDirection.flat xs)
          (going EventDirection.up xs ++ going EventDirection.down xs)))
  by_direction-cons x xs EventDirection.flat e = simp e (Perm.refl (x ∷ by_direction xs))

  -- flat, up and down events together are all events
  by_direction-perm : (xs : List (MarketEvent F)) → Perm (by_direction xs) xs
  by_direction-perm [] = Perm.refl []
  by_direction-perm (x ∷ xs) =
      Perm.trans (by_direction-cons x xs x.direction refl) (Perm.cons x (by_direction-perm xs))

module _ {F : Type 0} ⦃f : Float F⦄ where
  episode_of-members :
      (d : EventDirection) (es : List (MarketEvent F)) → Perm (all_members (episode_of d es)) es
  episode_of-members d [] = Perm.refl []
  episode_of-members d (e ∷ es) = rw (append-nil (sort_by_key (e ∷ es))) (sort_by_key-perm (e ∷ es))

  -- the three episodes hold what they are made of
  episodes-members :
      (us ds ns : List (MarketEvent F))
      → Perm
          (all_members (
            episode_of EventDirection.up us
            ++ (episode_of EventDirection.down ds ++ episode_of EventDirection.flat ns)))
          (us ++ (ds ++ ns))
  episodes-members us ds ns =
      rw
        (
          all_members-append (episode_of EventDirection.up us)
              (episode_of EventDirection.down ds ++ episode_of EventDirection.flat ns),
          all_members-append (episode_of EventDirection.down ds)
              (episode_of EventDirection.flat ns),
        )
        (Perm.append (episode_of-members EventDirection.up us) (
          Perm.append (episode_of-members EventDirection.down ds)
            (episode_of-members EventDirection.flat ns)))

  -- the same, for the lists that an assignment of the flat events gives
  parts-perm :
      (recent : List (MarketEvent F)) (d : EventDirection)
      → Perm
          ((nones_for EventDirection.up d recent ++ going EventDirection.up recent)
            ++ ((nones_for EventDirection.down d recent ++ going EventDirection.down recent)
                ++ nones_for EventDirection.flat d recent))
          (by_direction recent)
  parts-perm recent EventDirection.up =
      rw
        (
          append-nil (going EventDirection.down recent),
          append_assoc (going EventDirection.flat recent) (going EventDirection.up recent)
              (going EventDirection.down recent),
        )
        (Perm.refl (by_direction recent))
  parts-perm recent EventDirection.down =
      let u = going EventDirection.up recent in
      let d = going EventDirection.down recent in
      let n = going EventDirection.flat recent in
      rw (append-nil (n ++ d), sym (append_assoc u n d), sym (append_assoc n u d))
        (Perm.append_right d (perm_append_comm u n))
  parts-perm recent EventDirection.flat =
      let u = going EventDirection.up recent in
      let d = going EventDirection.down recent in
      let n = going EventDirection.flat recent in
      rw (sym (append_assoc u d n)) (perm_append_comm (u ++ d) n)

  -- Wherever the events without a direction are put, the episodes of a lineage hold each of its
  -- events exactly once: none is lost and none stands in two episodes.
  pub partition-perm :
      (recent : List (MarketEvent F)) (none_target : EventDirection)
      → Perm (all_members (partition_lineage_episodes recent none_target)) recent
  unfolding partition_lineage_episodes
  partition-perm recent none_target =
      Perm.trans
        (episodes-members
          (nones_for EventDirection.up none_target recent ++ going EventDirection.up recent)
          (nones_for EventDirection.down none_target recent ++ going EventDirection.down recent)
          (nones_for EventDirection.flat none_target recent))
        (Perm.trans (parts-perm recent none_target) (by_direction-perm recent))

  -- a member of an episode goes its way, or has no direction
  abbrev pub Belongs : EventDirection → MarketEvent F → Type 0
  Belongs d e = (e.direction ≡ d) ⊎ (e.direction ≡ EventDirection.flat)

  abbrev pub IsEpisode : Episode F → Type 0
  IsEpisode (d, es) = All (Belongs d) es × InTime es

  going-Belongs : (d : EventDirection) (xs : List (MarketEvent F)) → All (Belongs d) (going d xs)
  going-Belongs d xs =
      All-map_imp (λ e. (e.direction == d) ≡ true) (Belongs d) (going d xs)
        (λ e h. inl ((direction_eq.beq_iff e.direction d).0 h))
        (All-filter_test (λ i. i.direction == d) xs)

  nones_for-Belongs :
      (d t : EventDirection) (xs : List (MarketEvent F)) → All (Belongs d) (nones_for d t xs)
  nones_for-Belongs d t xs = elim (Bool-cases (t == d)) [
    | inl e ↦ rw e (
        All-map_imp (Belongs EventDirection.flat) (Belongs d) (going EventDirection.flat xs)
          (λ e' h. elim h [ inl p ↦ inr p | inr p ↦ inr p ]) (going-Belongs EventDirection.flat xs))
    | inr e ↦ rw e tt
  ]

  module _ (laws : IsOrdered F) where
    episode_of-IsEpisode :
        (d : EventDirection) (es : List (MarketEvent F))
        → All (Belongs d) es
        → All IsEpisode (episode_of d es)
    episode_of-IsEpisode d [] h = tt
    episode_of-IsEpisode d (e ∷ es) h =
        ((All-sort (Belongs d) (e ∷ es) h, sort_by_key-InTime laws (e ∷ es)), tt)

    -- Each episode holds events of its own direction and events without a direction only, and holds
    -- them in the order of their market times.
    pub partition-IsEpisode :
        (recent : List (MarketEvent F)) (none_target : EventDirection)
        → All IsEpisode (partition_lineage_episodes recent none_target)
    unfolding partition_lineage_episodes
    partition-IsEpisode recent t =
        let part : (d : EventDirection)
            → All IsEpisode (episode_of d (nones_for d t recent ++ going d recent)) =
          λ d. episode_of-IsEpisode d (nones_for d t recent ++ going d recent) (
            All-append (Belongs d) (nones_for d t recent) (going d recent)
              (nones_for-Belongs d t recent) (going-Belongs d recent)) in
        All-append IsEpisode
          (episode_of EventDirection.up
            (nones_for EventDirection.up t recent ++ going EventDirection.up recent))
          _ (part EventDirection.up)
          (All-append IsEpisode
            (episode_of EventDirection.down
              (nones_for EventDirection.down t recent ++ going EventDirection.down recent))
            _ (part EventDirection.down)
            (episode_of-IsEpisode EventDirection.flat (nones_for EventDirection.flat t recent)
              (nones_for-Belongs EventDirection.flat t recent)))
