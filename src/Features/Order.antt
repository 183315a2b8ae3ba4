-- ===== src/Features/Order.antt =====
-- The order of sorted lists, and of the starts of the buckets.
use market_sentinel.Base.{◌≡◌, false, List, [], ◌∷◌, arith, All, All-map_imp, Bool-cases, inl, inr}
use market_sentinel.Base.Float.{Float, IsOrdered, lt, eq, ◌≺◌}
use market_sentinel.Base.Float.Order.{lt_trans, lt_of_not_lt_ne}
use market_sentinel.Domain.{MarketSnapshot}
use market_sentinel.Features.Bars.{Bucket, insert_by, sorted, add_to_bucket, start_of}

module _ {F : Type 0} ⦃f : Float F⦄ where
  -- strictly increasing keys
  abbrev pub Increasing : {A : Type 0} → (A → F) → List A → Type 0
  Increasing key [] = Unit
  Increasing key (x ∷ xs) = All (λ y. key x ≺ key y) xs × Increasing key xs

  -- no two keys are equal
  abbrev pub Distinct : {A : Type 0} → (A → F) → List A → Type 0
  Distinct key [] = Unit
  Distinct key (x ∷ xs) = All (λ y. eq (key x) (key y) ≡ false) xs × Distinct key xs

  All-insert_by {κ} :
      {A : Type 0} (P : A → Type κ) (key : A → F) (x : A) (ys : List A)
      → P x
      → All P ys
      → All P (insert_by key x ys)
  All-insert_by P key x [] p h = (p, tt)
  All-insert_by P key x (y ∷ ys) p (q, h) = elim (Bool-cases (lt (key y) (key x))) [
    | inl e ↦ rw e (q, All-insert_by P key x ys p h)
    | inr e ↦ rw e (p, (q, h))
  ]

  pub All-sorted {κ} :
      {A : Type 0} (P : A → Type κ) (key : A → F) (xs : List A) → All P xs → All P (sorted key xs)
  All-sorted P key [] h = tt
  All-sorted P key (x ∷ xs) (p, h) = All-insert_by P key x (sorted key xs) p (All-sorted P key xs h)

  module _ (laws : IsOrdered F) where
    above-All :
        {A : Type 0} (key : A → F) (a b : F) (ys : List A)
        → a ≺ b
        → All (λ y. b ≺ key y) ys
        → All (λ y. a ≺ key y) ys
    above-All key a b ys h =
        All-map_imp (λ y. b ≺ key y) (λ y. a ≺ key y) ys (λ y k. lt_trans laws a b (key y) h k)

    Increasing-insert_by :
        {A : Type 0} (key : A → F) (x : A) (ys : List A)
        → All (λ y. eq (key x) (key y) ≡ false) ys
        → Increasing key ys
        → Increasing key (insert_by key x ys)
    Increasing-insert_by key x [] d h = (tt, tt)
    Increasing-insert_by key x (y ∷ ys) (d, ds) (above, h) =
        elim (Bool-cases (lt (key y) (key x))) [
          | inl e ↦ rw e (
            All-insert_by (λ z. key y ≺ key z) key x ys e above,
            Increasing-insert_by key x ys ds h,
          )
          | inr e ↦
              let below =
                lt_of_not_lt_ne laws (key y) (key x) e
                  (ground (arith, laws.eq-eq-le (key y) (key x), laws.eq-eq-le (key x) (key y))) in
              rw e ((below, above-All key (key x) (key y) ys below above), (above, h))
        ]

    pub Increasing-sorted :
        {A : Type 0} (key : A → F) (xs : List A) → Distinct key xs → Increasing key (sorted key xs)
    Increasing-sorted key [] h = tt
    Increasing-sorted key (x ∷ xs) (d, h) =
        Increasing-insert_by key x (sorted key xs)
          (All-sorted (λ y. eq (key x) (key y) ≡ false) key xs d) (Increasing-sorted key xs h)

    -- the starts of a list of buckets, where one more snapshot is added
    pub All-add_to_bucket {κ} :
        (P : F → Type κ) (start : F) (s : MarketSnapshot F) (buckets : List (Bucket F))
        → P start
        → All (λ b. P (start_of b)) buckets
        → All (λ b. P (start_of b)) (add_to_bucket start s buckets)
    All-add_to_bucket P start s [] p h = (p, tt)
    All-add_to_bucket P start s ((t, g) ∷ buckets) p (q, h) = elim (Bool-cases (eq t start)) [
      | inl e ↦ rw e (q, h)
      | inr e ↦ rw e (q, All-add_to_bucket P start s buckets p h)
    ]

    pub Distinct-add_to_bucket :
        (start : F) (s : MarketSnapshot F) (buckets : List (Bucket F))
        → Distinct start_of buckets
        → Distinct start_of (add_to_bucket start s buckets)
    Distinct-add_to_bucket start s [] h = (tt, tt)
    Distinct-add_to_bucket start s ((t, g) ∷ buckets) (d, h) = elim (Bool-cases (eq t start)) [
      | inl e ↦ rw e (d, h)
      | inr e ↦ rw e (
        All-add_to_bucket (λ u. eq t u ≡ false) start s buckets e d,
        Distinct-add_to_bucket start s buckets h,
      )
    ]
