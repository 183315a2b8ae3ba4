-- ===== src/Indicators/Streaming.antt =====
-- The indicators after one more close, from what they were before it.
use market_sentinel.Base.{
  ℕ, zero, suc, ◌+◌, ◌≤◌, ◌<◌, ◌≡◌, refl, ap, ◌∙◌, ◌||◌, some, List, [], ◌∷◌, ◌++◌, arith, map,
  length, length-append, drop, eqb, ltb, Bool-cases, inl, inr, last?, or_else, length-drop,
  last?-cons,
}
use market_sentinel.Base.Float.{Float, sub}
use market_sentinel.Indicators.{
  take, seed, ema_step, ema_loop, ema, changes, changes_from, gain, loss, wilder, averages_loop,
  averages, rsi_wilder, strength,
}

module _ {A : Type 0} where
  take-append : (n : ℕ) (xs ys : List A) → n ≤ length xs → take n (xs ++ ys) ≡ take n xs
  take-append zero xs ys h = refl
  take-append (suc n) [] ys h = absurd (omega arith)
  take-append (suc n) (x ∷ xs) ys h = ap (λ r. x ∷ r) (take-append n xs ys (omega arith))

  drop-append : (n : ℕ) (xs ys : List A) → n ≤ length xs → drop n (xs ++ ys) ≡ drop n xs ++ ys
  drop-append zero xs ys h = refl
  drop-append (suc n) [] ys h = absurd (omega arith)
  drop-append (suc n) (x ∷ xs) ys h = drop-append n xs ys (omega arith)

module _ {F : Type 0} ⦃f : Float F⦄ where
  ema_loop-append :
      (period : ℕ) (v c : F) (xs : List F)
      → ema_loop period v (xs ++ (c ∷ [])) ≡ ema_step period (ema_loop period v xs) c
  ema_loop-append period v c [] = refl
  ema_loop-append period v c (x ∷ xs) = ema_loop-append period (ema_step period v x) c xs

  -- Once there are as many closes as the period, which is above zero, the average is there, and one more
  -- close moves it by one step of the exponential smoothing: it need not be computed from the start.
  pub ema-append :
      (period : ℕ) (closes : List F) (c : F)
      → 0 < period
      → period ≤ length closes
      → (v : F) × (ema period closes ≡ some v)
        × (ema period (closes ++ (c ∷ [])) ≡ some (ema_step period v c))
  unfolding ema
  ema-append period closes c pos enough =
      let v = ema_loop period (seed period closes) (drop period closes) in
      (
        v,
        ground arith,
        rw
            (
              take-append period closes (c ∷ []) enough,
              drop-append period closes (c ∷ []) enough,
              ema_loop-append period (seed period closes) c (drop period closes),
            )
            (ground (arith, length-append closes (c ∷ []))),
      )

  map-append : (g : F → F) (xs ys : List F) → map g (xs ++ ys) ≡ map g xs ++ map g ys
  map-append g [] ys = refl
  map-append g (x ∷ xs) ys = ap (λ r. g x ∷ r) (map-append g xs ys)

  length-map : (g : F → F) (xs : List F) → length (map g xs) ≡ length xs
  length-map g [] = refl
  length-map g (x ∷ xs) = ap suc (length-map g xs)

  averages_loop-append :
      (period : ℕ) (a b g l : F) (gs ls : List F)
      → length gs ≡ length ls
      → averages_loop period a b (gs ++ (g ∷ [])) (ls ++ (l ∷ [])) ≡ (
        wilder period (averages_loop period a b gs ls).0 g,
        wilder period (averages_loop period a b gs ls).1 l,
      )
  averages_loop-append period a b g l [] [] h = refl
  averages_loop-append period a b g l [] (y ∷ ys) h = absurd (omega arith)
  averages_loop-append period a b g l (x ∷ xs) [] h = absurd (omega arith)
  averages_loop-append period a b g l (x ∷ xs) (y ∷ ys) h =
      averages_loop-append period (wilder period a x) (wilder period b y) g l xs ys (omega arith)

  changes_from-append :
      (last c : F) (xs : List F)
      → changes_from last (xs ++ (c ∷ []))
        ≡ changes_from last xs ++ (sub c (or_else (last? xs) last) ∷ [])
  changes_from-append last c [] = refl
  changes_from-append last c (x ∷ xs) =
      ap (λ r. sub x last ∷ r) (changes_from-append x c xs) ∙ (rw (last?-cons x xs) refl)

  averages-append :
      (period : ℕ) (d : F) (cs : List F)
      → period ≤ length cs
      → averages period (cs ++ (d ∷ [])) ≡ (
        wilder period (averages period cs).0 (gain d),
        wilder period (averages period cs).1 (loss d),
      )
  unfolding averages
  averages-append period d cs h =
      let gs = map gain cs in
      let ls = map loss cs in
      let enough_g : period ≤ length gs = rw (length-map gain cs) h in
      let enough_l : period ≤ length ls = rw (length-map loss cs) h in
      rw
        (
          map-append gain cs (d ∷ []),
          map-append loss cs (d ∷ []),
          take-append period gs (gain d ∷ []) enough_g,
          take-append period ls (loss d ∷ []) enough_l,
          drop-append period gs (gain d ∷ []) enough_g,
          drop-append period ls (loss d ∷ []) enough_l,
        )
        (averages_loop-append period (seed period gs) (seed period ls) (gain d) (loss d)
          (drop period gs) (drop period ls)
          (omega (
            arith,
            length-drop period gs,
            length-drop period ls,
            length-map gain cs,
            length-map loss cs,
          )))

  averages-close :
      (period : ℕ) (x c : F) (closes : List F)
      → period ≤ length (changes (x ∷ closes))
      → averages period (changes (x ∷ (closes ++ (c ∷ [])))) ≡ (
        wilder period
            (averages period (changes (x ∷ closes))).0
            (gain (sub c (or_else (last? closes) x))),
        wilder period
            (averages period (changes (x ∷ closes))).1
            (loss (sub c (or_else (last? closes) x))),
      )
  averages-close period x c closes h =
      ap (averages period) (changes_from-append x c closes)
      ∙ averages-append period (sub c (or_else (last? closes) x)) (changes (x ∷ closes)) h

  length-changes_from : (last : F) (xs : List F) → length (changes_from last xs) ≡ length xs
  length-changes_from last [] = refl
  length-changes_from last (x ∷ xs) = ap suc (length-changes_from x xs)

  -- Once there are more closes than the period, which is above zero, the index is there; it is the
  -- strength of the average gain and the average loss, and one more close moves each of them by one step
  -- of Wilder's smoothing, with the change from the last close.
  pub rsi_wilder-append :
      (period : ℕ) (x c : F) (closes : List F)
      → 0 < period
      → period ≤ length closes
      → let (a, b) = averages period (changes (x ∷ closes)) in
        let d = sub c (or_else (last? closes) x) in
        (rsi_wilder period (x ∷ closes) ≡ some (strength a b))
        × (rsi_wilder period (x ∷ (closes ++ (c ∷ [])))
            ≡ some (strength (wilder period a (gain d)) (wilder period b (loss d))))
  unfolding rsi_wilder
  rsi_wilder-append period x c closes pos enough =
      let moved = averages-close period x c closes (omega (arith, length-changes_from x closes)) in
      (
        elim (Bool-cases (eqb period 0 || ltb (length (x ∷ closes)) (period + 1))) [
          | inl e ↦ absurd (ground arith)
          | inr e ↦ rw e refl
        ],
        elim (Bool-cases (eqb period 0 || ltb (length (x ∷ (closes ++ (c ∷ [])))) (period + 1))) [
          | inl e ↦ absurd (ground (arith, length-append closes (c ∷ [])))
          | inr e ↦ rw e (rw moved refl)
        ],
      )
