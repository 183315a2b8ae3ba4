-- ===== src/Cluster/Sorting.antt =====
-- Sorting by market time and identifier: no event is lost, and the times do not fall.
use mathlib.Core.List.{Perm}
use mathlib.Core.List.Perm
use market_sentinel.Base.{
  ◌≡◌, true, false, List, [], ◌∷◌, arith, All, All-map_imp, Bool-cases, inl, inr,
}
use market_sentinel.Base.Float.{Float, IsOrdered, ◌≼◌}
use market_sentinel.Base.Float.Order.{le_of_lt, le_of_not_lt}
use market_sentinel.Domain.{MarketEvent}
use market_sentinel.Cluster.{key_le, insert_by_key, sort_by_key}

module _ {F : Type 0} ⦃f : Float F⦄ where
  insert_by_key-perm :
      (x : MarketEvent F) (ys : List (MarketEvent F)) → Perm (insert_by_key x ys) (x ∷ ys)
  unfolding insert_by_key
  insert_by_key-perm x [] = Perm.refl (x ∷ [])
  insert_by_key-perm x (y ∷ ys) = elim (Bool-cases (key_le x y)) [
    | inl e ↦ rw (e, insert_by_key) (Perm.refl (x ∷ (y ∷ ys)))
    | inr e ↦
        rw (e, insert_by_key)
          (Perm.trans (Perm.cons y (insert_by_key-perm x ys)) (Perm.swap x y ys))
  ]

  pub sort_by_key-perm : (xs : List (MarketEvent F)) → Perm (sort_by_key xs) xs
  unfolding sort_by_key
  sort_by_key-perm [] = Perm.refl []
  sort_by_key-perm (x ∷ xs) =
      Perm.trans (insert_by_key-perm x (sort_by_key xs)) (Perm.cons x (sort_by_key-perm xs))

  -- no later item is of an earlier time
  abbrev pub InTime : List (MarketEvent F) → Type 0
  InTime [] = Unit
  InTime (x ∷ xs) = All (λ y. x.market_timestamp ≼ y.market_timestamp) xs × InTime xs

  All-insert {κ} :
      (P : MarketEvent F → Type κ) (x : MarketEvent F) (ys : List (MarketEvent F))
      → P x
      → All P ys
      → All P (insert_by_key x ys)
  unfolding insert_by_key
  All-insert P x [] p h = (p, tt)
  All-insert P x (y ∷ ys) p (q, h) = elim (Bool-cases (key_le x y)) [
    | inl e ↦ rw (e, insert_by_key) (p, (q, h))
    | inr e ↦ rw (e, insert_by_key) (q, All-insert P x ys p h)
  ]

  pub All-sort {κ} :
      (P : MarketEvent F → Type κ) (xs : List (MarketEvent F)) → All P xs → All P (sort_by_key xs)
  unfolding sort_by_key
  All-sort P [] h = tt
  All-sort P (x ∷ xs) (p, h) = All-insert P x (sort_by_key xs) p (All-sort P xs h)

  module _ (laws : IsOrdered F) where
    time_of_key_le :
        (a b : MarketEvent F) → key_le a b ≡ true → a.market_timestamp ≼ b.market_timestamp
    time_of_key_le a b h = ground (
      arith,
      le_of_lt laws a.market_timestamp b.market_timestamp,
      le_of_not_lt laws b.market_timestamp a.market_timestamp,
    )

    time_of_not_key_le :
        (a b : MarketEvent F) → key_le a b ≡ false → b.market_timestamp ≼ a.market_timestamp
    time_of_not_key_le a b h =
        ground (arith, le_of_not_lt laws a.market_timestamp b.market_timestamp)

    insert-InTime :
        (x : MarketEvent F) (ys : List (MarketEvent F)) → InTime ys → InTime (insert_by_key x ys)
    unfolding insert_by_key
    insert-InTime x [] h = (tt, tt)
    insert-InTime x (y ∷ ys) (a, h) = elim (Bool-cases (key_le x y)) [
      | inl e ↦
          let p = time_of_key_le x y e in
          rw (e, insert_by_key)
            (
              (
                p,
                All-map_imp (λ z. y.market_timestamp ≼ z.market_timestamp)
                    (λ z. x.market_timestamp ≼ z.market_timestamp) ys
                    (λ z q.
                      laws.le_trans x.market_timestamp y.market_timestamp z.market_timestamp p q)
                    a,
              ),
              (a, h),
            )
      | inr e ↦
          rw (e, insert_by_key)
            (
              All-insert (λ z. y.market_timestamp ≼ z.market_timestamp) x ys
                  (time_of_not_key_le x y e) a,
              insert-InTime x ys h,
            )
    ]

    pub sort_by_key-InTime : (xs : List (MarketEvent F)) → InTime (sort_by_key xs)
    unfolding sort_by_key
    sort_by_key-InTime [] = tt
    sort_by_key-InTime (x ∷ xs) = insert-InTime x (sort_by_key xs) (sort_by_key-InTime xs)
