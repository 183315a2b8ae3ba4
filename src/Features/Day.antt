-- ===== src/Features/Day.antt =====
-- The search in a buffer with the snapshots of one day alone.
use mathlib.Core.Bool.{false≢true}
use mathlib.Core.Option.{some-injective}
use market_sentinel.Base.{
  String, ◌≡◌, refl, ap, sym, subst, ◌∙◌, Bool, true, false, Option, none, some, List, [], ◌∷◌,
  arith, if◌then◌else◌, All, Bool-cases, Option-cases, inl, inr, filter, last?, is_some, last?-cons,
  All-filter, All-last?,
}
use market_sentinel.Base.Eq.{string_eq, ◌==◌}
use market_sentinel.Base.Float.{Float, IsOrdered, le, ◌≼◌, ◌≺◌}
use market_sentinel.Base.Float.Order.{le_of_lt}
use market_sentinel.Domain.{MarketSnapshot}
use market_sentinel.RingBuffer.{RingBuffer, latest, at_or_before}
use market_sentinel.RingBuffer.Place.{Ascending}
use market_sentinel.RingBuffer.Queries.{up_to, at_or_before-Ascending}
use market_sentinel.Session.{Platform, session_id}

module _ {A : Type 0} where
  pub filter_comm : (p q : A → Bool) (xs : List A) → filter p (filter q xs) ≡ filter q (filter p xs)
  filter_comm p q [] = refl
  filter_comm p q (x ∷ xs) = ground (arith, filter_comm p q xs)

  pub filter_idem : (p : A → Bool) (xs : List A) → filter p (filter p xs) ≡ filter p xs
  filter_idem p [] = refl
  filter_idem p (x ∷ xs) = ground (arith, filter_idem p xs)

  pub filter-kept :
      (p : A → Bool) (x : A) (xs : List A) → p x ≡ true → filter p (x ∷ xs) ≡ x ∷ filter p xs
  filter-kept p x xs h = rw h refl

  pub filter-left :
      (p : A → Bool) (x : A) (xs : List A) → p x ≡ false → filter p (x ∷ xs) ≡ filter p xs
  filter-left p x xs h = rw h refl

  filter_nothing : (p : A → Bool) (xs : List A) → All (λ x. p x ≡ false) xs → filter p xs ≡ []
  filter_nothing p [] h = refl
  filter_nothing p (x ∷ xs) (h, hs) = rw h (filter_nothing p xs hs)

  last?-nothing : (xs : List A) → last? xs ≡ none → xs ≡ []
  last?-nothing [] h = refl
  last?-nothing (x ∷ xs) h = absurd (false≢true (sym (ap is_some h) ∙ ap is_some (last?-cons x xs)))

  -- a filter that keeps the last element keeps it last
  pub last?-filter :
      (p : A → Bool) (xs : List A) (a : A)
      → last? xs ≡ some a
      → p a ≡ true
      → last? (filter p xs) ≡ some a
  last?-filter p [] a l h = l
  last?-filter p (x ∷ []) a l h =
      let same : x ≡ a = some-injective _ _ l in let on : p x ≡ true = rw same h in rw on l
  last?-filter p (x ∷ (y ∷ ys)) a l h = elim (Bool-cases (p x)) [
    | inl e ↦ rw e (last?-cons x (filter p (y ∷ ys)) ∙ (rw (last?-filter p (y ∷ ys) a l h) refl))
    | inr e ↦ rw e (last?-filter p (y ∷ ys) a l h)
  ]

module _ {F : Type 0} ⦃f : Float F⦄ where
  Ascending-filter :
      (p : MarketSnapshot F → Bool) (xs : List (MarketSnapshot F))
      → Ascending xs
      → Ascending (filter p xs)
  Ascending-filter p [] h = tt
  Ascending-filter p (x ∷ xs) (a, h) = elim (Bool-cases (p x)) [
    | inl e ↦
        rw e (
          All-filter (λ y. x.market_timestamp ≺ y.market_timestamp) p xs a,
          Ascending-filter p xs h,
        )
    | inr e ↦ rw e (Ascending-filter p xs h)
  ]

  -- no item is later than the last one
  up_to_last :
      (laws : IsOrdered F) (xs : List (MarketSnapshot F)) (a : MarketSnapshot F)
      → Ascending xs
      → last? xs ≡ some a
      → All (λ x. x.market_timestamp ≼ a.market_timestamp) xs
  up_to_last laws [] a h l = tt
  up_to_last laws (x ∷ []) a h l =
      let same : x ≡ a = some-injective _ _ l in
      (
        subst (λ z. x.market_timestamp ≼ z.market_timestamp) same (laws.le_refl x.market_timestamp),
        tt,
      )
  up_to_last laws (x ∷ (y ∷ ys)) a (above, h) l = (
    le_of_lt laws x.market_timestamp a.market_timestamp
        (All-last? (λ i. x.market_timestamp ≺ i.market_timestamp) (y ∷ ys) a above l),
    up_to_last laws (y ∷ ys) a h l,
  )

-- A day is one stretch of time: what lies between two timestamps of a day is of that day.
pub record IsCalendar {F : Type 0} ⦃f : Float F⦄ (lib : Platform F) : Type 0 where
  pub convex :
      (a b c : F)
      → a ≼ b
      → b ≼ c
      → session_id lib a ≡ session_id lib c
      → session_id lib b ≡ session_id lib c

module _ {F : Type 0} ⦃f : Float F⦄ (lib : Platform F) where
  -- whether a snapshot is of a day
  abbrev pub of_day : String → MarketSnapshot F → Bool
  of_day d s = session_id lib s.market_timestamp == d

  -- the buffer with the snapshots of one day alone
  abbrev pub only_day : String → RingBuffer F → RingBuffer F
  only_day d b = record b { items = filter (of_day d) b.items }

  -- the snapshot, if it is of the day
  abbrev pub of_day_only : String → Option (MarketSnapshot F) → Option (MarketSnapshot F)
  of_day_only d none = none
  of_day_only d (some a) = if of_day d a then some a else none

  module _ (laws : IsOrdered F) (cal : IsCalendar lib) (newest : MarketSnapshot F) where
    abbrev day : String
    day = session_id lib newest.market_timestamp

    -- before a snapshot of another day there is none of the newest one's day
    All-off_day :
        (xs : List (MarketSnapshot F)) (a : MarketSnapshot F)
        → a.market_timestamp ≼ newest.market_timestamp
        → of_day day a ≡ false
        → All (λ x. x.market_timestamp ≼ a.market_timestamp) xs
        → All (λ x. of_day day x ≡ false) xs
    All-off_day [] a h off below = tt
    All-off_day (x ∷ xs) a h off (below, rest) = (
      elim (Bool-cases (of_day day x)) [
        | inl e ↦
            let same =
              cal.convex x.market_timestamp a.market_timestamp newest.market_timestamp below h
                ((string_eq.beq_iff (session_id lib x.market_timestamp) day).0 e) in
            absurd (
              ground
                (arith, (string_eq.beq_iff (session_id lib a.market_timestamp) day).1 same, off))
        | inr e ↦ e
      ],
      All-off_day xs a h off rest,
    )

    last_of_day :
        (xs : List (MarketSnapshot F))
        → Ascending xs
        → All (λ x. x.market_timestamp ≼ newest.market_timestamp) xs
        → last? (filter (of_day day) xs) ≡ of_day_only day (last? xs)
    last_of_day xs h below = elim (Option-cases (last? xs)) [
      | inl e ↦ rw (last?-nothing xs e) refl
      | inr (a, e) ↦ elim (Bool-cases (of_day day a)) [
        | inl p ↦ rw (e, p) (last?-filter (of_day day) xs a e p)
        | inr p ↦
            rw
              (
                e,
                p,
                filter_nothing (of_day day) xs (
                    All-off_day xs a
                      (All-last? (λ x. x.market_timestamp ≼ newest.market_timestamp) xs a below e) p
                      (up_to_last laws xs a h e)),
              )
              refl
      ]
    ]

    pub at_or_before-only_day :
        (t : F) (b : RingBuffer F)
        → Ascending b.items
        → latest b ≡ some newest
        → at_or_before t (only_day day b) ≡ of_day_only day (at_or_before t b)
    unfolding latest
    at_or_before-only_day t b h l =
        let test = λ (i : MarketSnapshot F). le i.market_timestamp t in
        at_or_before-Ascending laws t (only_day day b) (Ascending-filter (of_day day) b.items h)
        ∙ ap last? (filter_comm test (of_day day) b.items)
        ∙ last_of_day (up_to t b.items) (Ascending-filter test b.items h) (
            All-filter (λ x. x.market_timestamp ≼ newest.market_timestamp) test b.items
              (up_to_last laws b.items newest h l))
        ∙ ap (of_day_only day) (sym (at_or_before-Ascending laws t b h))
