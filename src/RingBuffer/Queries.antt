-- ===== src/RingBuffer/Queries.antt =====
-- The search by bisection against a reference, and what `append` leaves in a buffer.
use mathlib.Core.Option.{some-injective}
use market_sentinel.Base.{
  ℕ, zero, suc, ◌-◌, ◌≤◌, ◌<◌, ◌≡◌, refl, ap, sym, ◌∙◌, true, false, Option, none, some, List, [],
  ◌∷◌, arith, if◌then◌else◌, All, Bool-cases, Option-cases, inl, inr, length, drop, last?,
  last?-cons, last?-drop_lt, filter, or_else, All-last?, subst,
}
use market_sentinel.Base.Float.{Float, IsOrdered, IsMonotone, le, lt, sub, num, ◌≼◌, ◌≺◌}
use market_sentinel.Base.Float.Order.{le_of_lt, lt_of_le_of_lt}
use market_sentinel.Domain.{MarketSnapshot}
use market_sentinel.RingBuffer.{
  RingBuffer, get_elem?, timestamps, bisect_right, before_index, latest, drop_older, evict_from,
  evict, insert_by_time, append, at_or_before,
}
use market_sentinel.RingBuffer.Place.{place, insert_by_time-eq-place, Ascending}
use market_sentinel.RingBuffer.Bounds.{IsValid, evict_from-eq-drop}

module _ {F : Type 0} ⦃f : Float F⦄ where
  get_elem?-lt :
      (i : ℕ) (xs : List (MarketSnapshot F))
      → i < length xs
      → (a : MarketSnapshot F) × (get_elem? xs i ≡ some a)
  get_elem?-lt i [] h = absurd (omega arith)
  get_elem?-lt zero (x ∷ xs) h = (x, refl)
  get_elem?-lt (suc i) (x ∷ xs) h = get_elem?-lt i xs (omega arith)

  bisect_right-le :
      (t : F) (xs : List (MarketSnapshot F)) → bisect_right (timestamps xs) t ≤ length xs
  unfolding bisect_right
  bisect_right-le t [] = omega arith
  bisect_right-le t (x ∷ xs) = ground (arith, bisect_right-le t xs)

  before_index-suc :
      (x : MarketSnapshot F) (xs : List (MarketSnapshot F)) (n : ℕ)
      → n ≤ length xs
      → before_index (x ∷ xs) (suc n) ≡ some (or_else (before_index xs n) x)
  before_index-suc x xs zero h = refl
  before_index-suc x xs (suc n) h = let (a, e) = get_elem?-lt n xs (omega arith) in rw e

  -- the snapshots up to a time
  abbrev pub up_to : F → List (MarketSnapshot F) → List (MarketSnapshot F)
  up_to t = filter λ i. le i.market_timestamp t

  up_to_nothing :
      (t : F) (xs : List (MarketSnapshot F))
      → All (λ i. le i.market_timestamp t ≡ false) xs
      → up_to t xs ≡ []
  up_to_nothing t [] h = refl
  up_to_nothing t (x ∷ xs) (h, hs) = rw h (up_to_nothing t xs hs)

  module _ (laws : IsOrdered F) where
    later_not_le :
        (t : F) (x : MarketSnapshot F) (xs : List (MarketSnapshot F))
        → t ≺ x.market_timestamp
        → All (λ y. x.market_timestamp ≺ y.market_timestamp) xs
        → All (λ i. le i.market_timestamp t ≡ false) xs
    later_not_le t x [] h a = tt
    later_not_le t x (y ∷ ys) h (a, as') = (
      ground (
        arith,
        lt_of_le_of_lt laws t x.market_timestamp y.market_timestamp
            (le_of_lt laws t x.market_timestamp h) a,
        laws.lt-eq-not-le t y.market_timestamp,
      ),
      later_not_le t x ys h as',
    )

    search-eq-last :
        (t : F) (xs : List (MarketSnapshot F))
        → Ascending xs
        → before_index xs (bisect_right (timestamps xs) t) ≡ last? (up_to t xs)
    unfolding bisect_right
    search-eq-last t [] h = refl
    search-eq-last t (x ∷ xs) (a, h) = elim (Bool-cases (lt t x.market_timestamp)) [
      | inl e ↦
          let off : le x.market_timestamp t ≡ false =
            ground (arith, laws.lt-eq-not-le t x.market_timestamp) in
          rw (e, off) (rw (up_to_nothing t xs (later_not_le t x xs e a)) refl)
      | inr e ↦
          let on : le x.market_timestamp t ≡ true =
            ground (arith, laws.lt-eq-not-le t x.market_timestamp) in
          rw (e, on)
            (before_index-suc x xs (bisect_right (timestamps xs) t) (bisect_right-le t xs)
              ∙ ap (λ o. some (or_else o x)) (search-eq-last t xs h)
              ∙ sym (last?-cons x (up_to t xs)))
    ]

    -- the search, in a buffer that is in order of time
    pub at_or_before-Ascending :
        (t : F) (b : RingBuffer F) → Ascending b.items → at_or_before t b ≡ last? (up_to t b.items)
    unfolding at_or_before
    at_or_before-Ascending t b h = search-eq-last t b.items h

    -- On a well-formed buffer `at_or_before` finds, by bisection, the last of the snapshots that are
    -- not later than the given time, and nothing if there are none.
    pub at_or_before_lem :
        (t : F) (b : RingBuffer F) → IsValid b → at_or_before t b ≡ last? (up_to t b.items)
    at_or_before_lem t b v = at_or_before-Ascending t b v.ascending

  -- the later of two snapshots, the new one where they are of one time
  abbrev pub newer : Option (MarketSnapshot F) → MarketSnapshot F → MarketSnapshot F
  newer none s = s
  newer (some n) s = if lt s.market_timestamp n.market_timestamp then n else s

  evict_items :
      (b : RingBuffer F) (xs : List (MarketSnapshot F))
      → b.items ≡ xs
      → (n : ℕ) × ((evict b).items ≡ drop n xs)
  unfolding evict
  evict_items b xs e = elim (Option-cases (last? b.items)) [
    | inl q ↦ (0, rw (q, evict) e)
    | inr (newest, q) ↦
        let (n, d) = evict_from-eq-drop newest b in (n, rw (q, evict) (d ∙ ap (drop n) e))
  ]

  module _ (laws : IsOrdered F) where
    last?-place :
        (s : MarketSnapshot F) (xs : List (MarketSnapshot F))
        → Ascending xs
        → last? (place s xs) ≡ some (newer (last? xs) s)
    last?-place s [] h = refl
    last?-place s (x ∷ []) h = ground (
      arith,
      laws.lt-eq-not-le x.market_timestamp s.market_timestamp,
      laws.lt-eq-not-le s.market_timestamp x.market_timestamp,
      laws.eq-eq-le x.market_timestamp s.market_timestamp,
      laws.le_total x.market_timestamp s.market_timestamp,
    )
    last?-place s (x ∷ (y ∷ ys)) (above, h) =
        elim (Bool-cases (lt x.market_timestamp s.market_timestamp)) [
          | inl e ↦
              rw (e, place)
                (last?-cons x (place s (y ∷ ys))
                  ∙ ap (λ o. some (or_else o x)) (last?-place s (y ∷ ys) h))
          | inr e ↦
              let n : MarketSnapshot F = or_else (last? ys) y in
              let l : last? (y ∷ ys) ≡ some n = last?-cons y ys in
              let le_x : s.market_timestamp ≼ x.market_timestamp =
                ground (arith, laws.lt-eq-not-le x.market_timestamp s.market_timestamp) in
              let lt_n : s.market_timestamp ≺ n.market_timestamp =
                lt_of_le_of_lt laws s.market_timestamp x.market_timestamp n.market_timestamp le_x
                  (All-last? (λ i. x.market_timestamp ≺ i.market_timestamp) (y ∷ ys) n above l) in
              rw (e, place) (ground (arith, l, lt_n))
        ]

    last?-drop_older :
        (cutoff : F) (xs : List (MarketSnapshot F)) (n : MarketSnapshot F)
        → last? xs ≡ some n
        → cutoff ≼ n.market_timestamp
        → last? (drop_older cutoff xs) ≡ some n
    unfolding drop_older
    last?-drop_older cutoff [] n l h = l
    last?-drop_older cutoff (x ∷ []) n l h =
        let same : x ≡ n = some-injective _ _ l in
        let on : lt x.market_timestamp cutoff ≡ false =
          rw same (ground (arith, laws.lt-eq-not-le n.market_timestamp cutoff)) in
        rw on l
    last?-drop_older cutoff (x ∷ (y ∷ ys)) n l h =
        elim (Bool-cases (lt x.market_timestamp cutoff)) [
          | inl e ↦ rw e (last?-drop_older cutoff (y ∷ ys) n l h)
          | inr e ↦ rw e l
        ]

    length-last? :
        (xs : List (MarketSnapshot F)) (n : MarketSnapshot F) → last? xs ≡ some n → 0 < length xs
    length-last? [] n l = cc
    length-last? (x ∷ xs) n l = omega arith

    evict-last? :
        (mono : IsMonotone F) (b : RingBuffer F) (n : MarketSnapshot F)
        → 0 < b.max_size
        → num 0 ≼ b.retention_s
        → last? b.items ≡ some n
        → last? (evict b).items ≡ some n
    unfolding evict evict_from
    evict-last? mono b n room r l =
        let cutoff = sub n.market_timestamp b.retention_s in
        let below : cutoff ≼ n.market_timestamp =
          subst (λ z. cutoff ≼ z) (mono.sub_zero n.market_timestamp)
            (mono.sub_anti (num 0) b.retention_s n.market_timestamp r) in
        let kept = drop_older cutoff b.items in
        let inner = last?-drop_older cutoff b.items n l below in
        rw (l, evict)
          (last?-drop_lt (length kept - b.max_size) kept (omega (arith, length-last? kept n inner))
            ∙ inner)

    -- `append` makes the later of the newest snapshot and the given one the newest (the given one if
    -- they are of one time), in a well-formed buffer with room and a retention that is not negative;
    -- what is left is the list with the snapshot put in its place, less some of the oldest.
    pub append_lem :
        (mono : IsMonotone F) (s : MarketSnapshot F) (b : RingBuffer F)
        → IsValid b
        → 0 < b.max_size
        → num 0 ≼ b.retention_s
        → (latest (append s b) ≡ some (newer (latest b) s))
          × ((n : ℕ) × ((append s b).items ≡ drop n (place s b.items)))
    unfolding append latest
    append_lem mono s b v room r =
        let c : RingBuffer F = record b { items = insert_by_time s b.items } in
        let e = insert_by_time-eq-place s b.items in
        (
          evict-last? mono c (newer (last? b.items) s) room r
              (ap last? e ∙ last?-place s b.items v.ascending),
          evict_items c (place s b.items) e,
        )
