-- ===== src/Priority/Floor.antt =====
-- The priority of an episode against the severities of its events and its family.
use market_sentinel.Base.{ℕ, ◌≡◌, refl, ◌∙◌, ap, some, List, [], ◌∷◌, arith, String}
use market_sentinel.Domain.{SignalPriority, priority_rank, Family, MarketEvent}
use market_sentinel.Events.{max_nat}
use market_sentinel.Cluster.{classify_family}
use market_sentinel.Priority.{
  Formats, max_priority, priority_from_severity, compose_priority, priority_at, max_severity,
}

-- the least priority of a family
abbrev pub floor : Family → SignalPriority
floor Family.price_volume = SignalPriority.important
floor Family.volume = SignalPriority.notice
floor _ = SignalPriority.info

rank-max :
    (a b : ℕ)
    → priority_rank (priority_from_severity (max_nat a b))
      ≡ max_nat
          (priority_rank (priority_from_severity a))
          (priority_rank (priority_from_severity b))
unfolding priority_from_severity
rank-max a b = ground arith

abbrev pub rank_of : SignalPriority × String → ℕ
rank_of (p, reason) = priority_rank p

module _ {F : Type 0} where
  -- the highest of a rank and the ranks that the events have by their own severities
  abbrev pub highest : ℕ → List (MarketEvent F) → ℕ
  highest r [] = r
  highest r (e ∷ es) = highest (max_nat r (priority_rank (priority_from_severity e.severity))) es

  highest-max_severity :
      (s : ℕ) (es : List (MarketEvent F))
      → priority_rank (priority_from_severity (max_severity s es))
        ≡ highest (priority_rank (priority_from_severity s)) es
  highest-max_severity s [] = refl
  highest-max_severity s (e ∷ es) =
      highest-max_severity (max_nat s e.severity) es
      ∙ ap (λ r. highest r es) (rank-max s e.severity)

  rank-priority_at :
      (fmt : Formats F) (events : List (MarketEvent F)) (severity : ℕ)
      → rank_of (priority_at fmt events (classify_family events) severity)
        ≡ max_nat
            (priority_rank (priority_from_severity severity))
            (priority_rank (floor (classify_family events)))
  unfolding max_priority priority_from_severity classify_family
  rank-priority_at fmt events severity = ground arith

  -- The priority of an episode's events, at least one, under the family that they classify as, is the
  -- highest of the priorities that their severities give and of the least priority of the family:
  -- IMPORTANT for price and volume together, NOTICE for volume alone.
  pub compose_priority_lem :
      (fmt : Formats F) (e : MarketEvent F) (es : List (MarketEvent F))
      → (p : SignalPriority × String) × (compose_priority fmt (e ∷ es) (classify_family (e ∷ es))
          ≡ some p)
        × (rank_of p
            ≡ max_nat
                (highest (priority_rank (priority_from_severity e.severity)) es)
                (priority_rank (floor (classify_family (e ∷ es)))))
  unfolding compose_priority
  compose_priority_lem fmt e es = (
    priority_at fmt (e ∷ es) (classify_family (e ∷ es)) (max_severity e.severity es),
    refl,
    rank-priority_at fmt (e ∷ es) (max_severity e.severity es)
        ∙ ap (λ r. max_nat r (priority_rank (floor (classify_family (e ∷ es)))))
            (highest-max_severity e.severity es),
  )
