-- ===== src/Features/Shape.antt =====
-- The shape of the bars: the order of their starts, and of the prices of each.
use market_sentinel.Base.{
  Bool, true, false, not, ◌||◌, Option, none, some, List, [], ◌∷◌, arith, map, All, Bool-cases, inl,
  inr, last?-cons,
}
use market_sentinel.Base.Float.{Float, IsOrdered, le, sub, num, max_of, min_of, ◌≼◌, ◌≺◌}
use market_sentinel.Base.Float.Order.{le_max, min_le, lt_of_not_le}
use market_sentinel.Domain.{MarketBar, MarketSnapshot}
use market_sentinel.Session.{Platform, is_same_session}
use market_sentinel.Features.Bars.{
  Bucket, Baseline, sorted, max_from, min_from, add_to_bucket, interval_delta, is_contiguous,
  price_of, last_of, bar_of, baseline_after, initial_baseline, bars_from, sort_groups, start_of,
  minute_of, collect, completed_minute_bars,
}
use market_sentinel.Features.Order.{
  Increasing, Distinct, All-sorted, Increasing-sorted, All-add_to_bucket, Distinct-add_to_bucket,
}

module _ {F : Type 0} ⦃f : Float F⦄ where
  -- not below zero, if it is there
  abbrev pub IsNonneg : Option F → Type 0
  IsNonneg none = Unit
  IsNonneg (some v) = num 0 ≼ v

  -- the prices of a bar in order, and its volume and turnover not below zero
  pub record IsBar (bar : MarketBar F) : Type 0 where
    pub low_open : bar.low ≼ bar.open_price
    pub open_high : bar.open_price ≼ bar.high
    pub low_close : bar.low ≼ bar.close
    pub close_high : bar.close ≼ bar.high
    pub volume_nonneg : IsNonneg bar.volume
    pub turnover_nonneg : IsNonneg bar.turnover

  All-sort_groups {κ} :
      (P : F → Type κ) (buckets : List (Bucket F))
      → All (λ b. P (start_of b)) buckets
      → All (λ b. P (start_of b)) (sort_groups buckets)
  All-sort_groups P [] h = tt
  All-sort_groups P ((t, g) ∷ buckets) (p, h) = (p, All-sort_groups P buckets h)

  -- the starts of the buckets, whose groups are sorted
  Increasing-sort_groups :
      (buckets : List (Bucket F))
      → Increasing start_of buckets
      → Increasing start_of (sort_groups buckets)
  Increasing-sort_groups [] h = tt
  Increasing-sort_groups ((t, g) ∷ buckets) (above, h) =
      (All-sort_groups (λ u. t ≺ u) buckets above, Increasing-sort_groups buckets h)

  abbrev pub bar_start : MarketBar F → F
  bar_start bar = bar.start_timestamp

  All-bars_from {κ} :
      (P : F → Type κ) (bar_seconds : F) (base : Baseline F) (buckets : List (Bucket F))
      → All (λ b. P (start_of b)) buckets
      → All (λ b. P (bar_start b)) (bars_from bar_seconds base buckets)
  unfolding bars_from bar_of
  All-bars_from P bar_seconds base [] h = tt
  All-bars_from P bar_seconds base ((t, []) ∷ buckets) (p, h) =
      All-bars_from P bar_seconds base buckets h
  All-bars_from P bar_seconds base ((t, g ∷ gs) ∷ buckets) (p, h) =
      (p, All-bars_from P bar_seconds (baseline_after bar_seconds t (last_of g gs)) buckets h)

  Increasing-bars_from :
      (bar_seconds : F) (base : Baseline F) (buckets : List (Bucket F))
      → Increasing start_of buckets
      → Increasing bar_start (bars_from bar_seconds base buckets)
  unfolding bars_from bar_of
  Increasing-bars_from bar_seconds base [] h = tt
  Increasing-bars_from bar_seconds base ((t, []) ∷ buckets) (above, h) =
      Increasing-bars_from bar_seconds base buckets h
  Increasing-bars_from bar_seconds base ((t, g ∷ gs) ∷ buckets) (above, h) =
      let next = baseline_after bar_seconds t (last_of g gs) in
      (
        All-bars_from (λ u. t ≺ u) bar_seconds next buckets above,
        Increasing-bars_from bar_seconds next buckets h,
      )

  module _ (laws : IsOrdered F) where
    open laws use {le_refl, le_trans}

    le_max_from : (a : F) (xs : List F) → a ≼ max_from a xs
    le_max_from a [] = le_refl a
    le_max_from a (x ∷ xs) =
        le_trans a (max_of a x) _ (le_max laws a x).0 (le_max_from (max_of a x) xs)

    min_from_le : (a : F) (xs : List F) → min_from a xs ≼ a
    min_from_le a [] = le_refl a
    min_from_le a (x ∷ xs) =
        le_trans _ (min_of a x) a (min_from_le (min_of a x) xs) (min_le laws a x).0

    -- the close of a bar is between the extremes of the group
    le_max_last :
        (g : MarketSnapshot F) (gs : List (MarketSnapshot F)) (a : F)
        → g.price ≼ a
        → (last_of g gs).price ≼ max_from a (map price_of gs)
    le_max_last g [] a h = h
    le_max_last g (x ∷ xs) a h =
        rw (last?-cons x xs) (le_max_last x xs (max_of a x.price) (le_max laws a x.price).1)

    min_last_le :
        (g : MarketSnapshot F) (gs : List (MarketSnapshot F)) (a : F)
        → a ≼ g.price
        → min_from a (map price_of gs) ≼ (last_of g gs).price
    min_last_le g [] a h = h
    min_last_le g (x ∷ xs) a h =
        rw (last?-cons x xs) (min_last_le x xs (min_of a x.price) (min_le laws a x.price).1)

    interval_delta-IsNonneg :
        (current previous : Option F) (contiguous : Bool)
        → IsNonneg (interval_delta current previous contiguous)
    unfolding interval_delta
    interval_delta-IsNonneg none previous contiguous = tt
    interval_delta-IsNonneg (some c) none contiguous = tt
    interval_delta-IsNonneg (some c) (some p) false = tt
    interval_delta-IsNonneg (some c) (some p) true = (le_max laws (num 0) (sub c p)).0

    bar_of-IsBar :
        (bar_seconds start : F) (base : Baseline F) (g : MarketSnapshot F)
        (gs : List (MarketSnapshot F))
        → IsBar (bar_of bar_seconds start base g gs)
    unfolding bar_of
    bar_of-IsBar bar_seconds start base g gs =
        let last = last_of g gs in
        let contiguous = is_contiguous base.prev_end start in
        record {
          low_open = min_from_le g.price (map price_of gs);
          open_high = le_max_from g.price (map price_of gs);
          low_close = min_last_le g gs g.price (le_refl g.price);
          close_high = le_max_last g gs g.price (le_refl g.price);
          volume_nonneg = interval_delta-IsNonneg (some last.volume) base.last_volume contiguous;
          turnover_nonneg = interval_delta-IsNonneg last.turnover base.last_turnover contiguous;
        }

    bars_from-IsBar :
        (bar_seconds : F) (base : Baseline F) (buckets : List (Bucket F))
        → All IsBar (bars_from bar_seconds base buckets)
    unfolding bars_from
    bars_from-IsBar bar_seconds base [] = tt
    bars_from-IsBar bar_seconds base ((t, []) ∷ buckets) = bars_from-IsBar bar_seconds base buckets
    bars_from-IsBar bar_seconds base ((t, g ∷ gs) ∷ buckets) = (
      bar_of-IsBar bar_seconds t base g gs,
      bars_from-IsBar bar_seconds (baseline_after bar_seconds t (last_of g gs)) buckets,
    )

    module _ (lib : Platform F) (bar_seconds latest_ts : F) where
      -- the start of the minute that is not complete
      abbrev forming : F
      forming = minute_of lib bar_seconds latest_ts

      -- the buckets of complete minutes, each there once
      collect_lem :
          (snapshots : List (MarketSnapshot F)) (buckets : List (Bucket F))
          → Distinct start_of buckets
          → All (λ b. start_of b ≺ forming) buckets
          → Distinct start_of (collect lib bar_seconds latest_ts snapshots buckets)
            × All (λ b. start_of b ≺ forming) (collect lib bar_seconds latest_ts snapshots buckets)
      unfolding collect
      collect_lem [] buckets d h = (d, h)
      collect_lem (s ∷ snapshots) buckets d h =
          let start = minute_of lib bar_seconds s.market_timestamp in
          let other = not (is_same_session lib s.market_timestamp latest_ts) in
          elim (Bool-cases (other || le forming start)) [
            | inl e ↦ rw (e, collect) (collect_lem snapshots buckets d h)
            | inr e ↦
                let complete : start ≺ forming = lt_of_not_le laws forming start (ground arith) in
                rw (e, collect)
                  (collect_lem snapshots (add_to_bucket start s buckets)
                    (Distinct-add_to_bucket laws start s buckets d)
                    (All-add_to_bucket laws (λ u. u ≺ forming) start s buckets complete h))
          ]

      -- The completed bars come in the order of their starts, strictly, one for each minute, and all
      -- start before the minute that is forming; in each, the open and the close are between the low
      -- and the high, and the volume and the turnover, where they are known, are not below zero. The
      -- snapshots may come in any order.
      pub completed_minute_bars_lem :
          (snapshots : List (MarketSnapshot F))
          → let bars = completed_minute_bars lib snapshots latest_ts bar_seconds in
            Increasing bar_start bars
            × All (λ b. bar_start b ≺ minute_of lib bar_seconds latest_ts) bars
            × All IsBar bars
      unfolding completed_minute_bars
      completed_minute_bars_lem snapshots = elim (Bool-cases (le bar_seconds (num 0))) [
        | inl e ↦ rw e (tt, tt, tt)
        | inr e ↦
            let (d, h) = collect_lem snapshots [] tt tt in
            let found = collect lib bar_seconds latest_ts snapshots [] in
            let buckets = sort_groups (sorted start_of found) in
            rw e (
              Increasing-bars_from bar_seconds initial_baseline buckets (
                  Increasing-sort_groups (sorted start_of found)
                    (Increasing-sorted laws start_of found d)),
              All-bars_from (λ u. u ≺ forming) bar_seconds initial_baseline buckets
                  (All-sort_groups (λ u. u ≺ forming) (sorted start_of found)
                    (All-sorted (λ b. start_of b ≺ forming) start_of found h)),
              bars_from-IsBar bar_seconds initial_baseline buckets,
            )
      ]
