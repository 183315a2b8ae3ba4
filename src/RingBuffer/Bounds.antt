-- ===== src/RingBuffer/Bounds.antt =====
-- The well-formedness of a ring buffer, that `append` keeps it, and what `append` leaves in it.
use market_sentinel.Base.{
  ℕ, zero, suc, ◌-◌, ◌≤◌, ◌<◌, ◌≡◌, refl, ap, ◌∙◌, false, none, some, List, [], ◌∷◌, arith, All,
  All-drop, All-map_imp, Bool-cases, Option-cases, inl, inr, length, length-drop, drop, last?,
  last?-cons, last?-drop,
}
use market_sentinel.Base.Float.{Float, IsOrdered, le, lt, sub, num, ◌≼◌, ◌≺◌}
use market_sentinel.Base.Float.Order.{le_of_lt, le_of_not_lt}
use market_sentinel.Domain.{MarketSnapshot}
use market_sentinel.RingBuffer.{
  RingBuffer, new, latest, drop_older, evict_from, evict, insert_by_time, append,
}
use market_sentinel.RingBuffer.Place.{insert_by_time-eq-place, Ascending, Ascending-place}

module _ {F : Type 0} ⦃f : Float F⦄ where
  -- in order of time, at most `max_size` items, none older than the newest by more than the retention
  pub record IsValid (b : RingBuffer F) : Type 0 where
    pub ascending : Ascending b.items
    pub bounded : length b.items ≤ b.max_size
    pub retained :
        (n : MarketSnapshot F)
        → last? b.items ≡ some n
        → All (λ i. sub n.market_timestamp b.retention_s ≼ i.market_timestamp) b.items

  Ascending-drop : (n : ℕ) (xs : List (MarketSnapshot F)) → Ascending xs → Ascending (drop n xs)
  Ascending-drop zero xs h = h
  Ascending-drop (suc n) [] h = h
  Ascending-drop (suc n) (x ∷ xs) (a, h) = Ascending-drop n xs h

  -- the loop drops from the front
  drop_older-eq-drop :
      (cutoff : F) (xs : List (MarketSnapshot F)) → (n : ℕ) × (drop_older cutoff xs ≡ drop n xs)
  unfolding drop_older
  drop_older-eq-drop cutoff [] = (0, refl)
  drop_older-eq-drop cutoff (x ∷ xs) = elim (Bool-cases (lt x.market_timestamp cutoff)) [
    | inl e ↦ let (n, h) = drop_older-eq-drop cutoff xs in (suc n, rw e h)
    | inr e ↦ (0, rw e)
  ]

  drop-drop : (m n : ℕ) (xs : List (MarketSnapshot F)) → (k : ℕ) × (drop m (drop n xs) ≡ drop k xs)
  drop-drop m zero xs = (m, refl)
  drop-drop zero (suc n) xs = (suc n, refl)
  drop-drop (suc m) (suc n) [] = (0, refl)
  drop-drop (suc m) (suc n) (x ∷ xs) = let (k, e) = drop-drop (suc m) n xs in (suc k, e)

  pub evict_from-eq-drop :
      (newest : MarketSnapshot F) (b : RingBuffer F)
      → (n : ℕ) × ((evict_from newest b).items ≡ drop n b.items)
  unfolding evict_from
  evict_from-eq-drop newest b =
      let cutoff = sub newest.market_timestamp b.retention_s in
      let (n, h) = drop_older-eq-drop cutoff b.items in
      let m = length (drop_older cutoff b.items) - b.max_size in
      let (k, e) = drop-drop m n b.items in (k, ap (drop m) h ∙ e)

  module _ (laws : IsOrdered F) where
    drop_older-All :
        (cutoff : F) (xs : List (MarketSnapshot F))
        → Ascending xs
        → All (λ i. cutoff ≼ i.market_timestamp) (drop_older cutoff xs)
    unfolding drop_older
    drop_older-All cutoff [] h = tt
    drop_older-All cutoff (x ∷ xs) (a, h) = elim (Bool-cases (lt x.market_timestamp cutoff)) [
      | inl e ↦ rw e (drop_older-All cutoff xs h)
      | inr e ↦
          let first = le_of_not_lt laws x.market_timestamp cutoff e in
          rw e (
            first,
            All-map_imp (λ i. x.market_timestamp ≺ i.market_timestamp)
                (λ i. cutoff ≼ i.market_timestamp) xs
                (λ y p.
                  laws.le_trans cutoff x.market_timestamp y.market_timestamp first
                    (le_of_lt laws x.market_timestamp y.market_timestamp p))
                a,
          )
    ]

    evict_from-IsValid :
        (newest : MarketSnapshot F) (b : RingBuffer F)
        → last? b.items ≡ some newest
        → Ascending b.items
        → IsValid (evict_from newest b)
    unfolding evict_from
    evict_from-IsValid newest b l h =
        let cutoff = sub newest.market_timestamp b.retention_s in
        let kept = drop_older cutoff b.items in
        let (n, e) = drop_older-eq-drop cutoff b.items in
        let k = length kept - b.max_size in
        record {
          ascending = Ascending-drop k kept (rw e (Ascending-drop n b.items h));
          bounded = omega (arith, length-drop k kept);
          retained = λ m q.
              let inner = last?-drop n b.items m (rw e at (last?-drop k kept m q)) in
              let same : m ≡ newest = cc (l, inner) in
              rw same (All-drop _ k kept (drop_older-All cutoff b.items h));
        }

    empty_of_no_last : (xs : List (MarketSnapshot F)) → last? xs ≡ none → length xs ≡ 0
    empty_of_no_last [] q = refl
    empty_of_no_last (x ∷ xs) q = cc (last?-cons x xs)

    evict-IsValid : (b : RingBuffer F) → Ascending b.items → IsValid (evict b)
    unfolding evict
    evict-IsValid b h = elim (Option-cases (last? b.items)) [
      | inl e ↦
          rw (e, evict)
            (record {
              ascending = h;
              bounded = omega (arith, empty_of_no_last b.items e);
              retained = λ n q. cc (e, q);
            })
      | inr (newest, e) ↦ rw (e, evict) (evict_from-IsValid newest b e h)
    ]

    -- `append` keeps a ring buffer well-formed.
    pub append-IsValid :
        (s : MarketSnapshot F) (b : RingBuffer F) → IsValid b → IsValid (append s b)
    unfolding append
    append-IsValid s b v =
        evict-IsValid (record b { items = insert_by_time s b.items })
          (rw insert_by_time-eq-place (Ascending-place laws s b.items v.ascending))

  pub fixed-append :
      (s : MarketSnapshot F) (b : RingBuffer F)
      → ((append s b).retention_s ≡ b.retention_s) × ((append s b).max_size ≡ b.max_size)
  unfolding append evict evict_from
  fixed-append s b = ground arith

  pub new_lem :
      (r : F) (m : ℕ)
      → le r (num 0) ≡ false
      → 0 < m
      → new r m ≡ some (record { retention_s = r; max_size = m; items = [] })
  unfolding new
  new_lem r m h k = ground arith

  pub empty-IsValid :
      (r : F) (m : ℕ) → IsValid (record { retention_s = r; max_size = m; items = [] })
  empty-IsValid r m = record { ascending = tt; bounded = omega arith; retained = λ n e. cc }

  pub empty-latest :
      (r : F) (m : ℕ) → latest (record { retention_s = r; max_size = m; items = [] }) ≡ none
  unfolding latest
  empty-latest r m = refl
