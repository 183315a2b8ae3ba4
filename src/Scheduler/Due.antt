-- ===== src/Scheduler/Due.antt =====
-- Which symbols are due, against the wait that the scheduler asks for.
use market_sentinel.Base.{
  String, ◌≡◌, ap, ◌∙◌, ◌||◌, List, [], ◌∷◌, arith, if◌then◌else◌, any, Option-cases, inl, inr,
}
use market_sentinel.Base.Eq.{string_eq, ◌==◌}
use market_sentinel.Base.Dict.{get, get-set}
use market_sentinel.Base.Float.{Float, IsOrdered, IsMonotone, le, sub, num, min_of}
use market_sentinel.Scheduler.{
  AdaptiveScheduler, get_level, interval, is_due, mark_fetched, remaining, min_from, remaining_all,
  next_wait_s,
}

module _ {F : Type 0} ⦃f : Float F⦄ (laws : IsOrdered F) where
  min-le : (a b c : F) → le (min_of a b) c ≡ (le a c || le b c)
  min-le a b c =
      ground
        (arith, laws.lt-eq-not-le b a, laws.le_total a b, laws.le_trans a b c, laws.le_trans b a c)

  module _ (mono : IsMonotone F) where
    -- nothing is left to wait exactly for the symbols that are due
    remaining-le :
        (now : F) (s : AdaptiveScheduler F) (k : String)
        → le (remaining now s k) (num 0) ≡ is_due now s k
    unfolding remaining is_due
    remaining-le now s k = elim (Option-cases (get k s.last_fetch_mono)) [
      | inl e ↦ rw (e, remaining, is_due) (laws.le_refl (num 0))
      | inr (last, e) ↦
          let i = interval (get_level k s) s in
          let d = sub now last in
          rw (e, remaining, is_due)
            (ground (
              arith,
              laws.lt-eq-not-le (num 0) (sub i d),
              laws.le_refl (num 0),
              mono.sub_nonpos i d,
            ))
    ]

    min_from-le :
        (now : F) (s : AdaptiveScheduler F) (a : F) (ks : List String)
        → le (min_from a (remaining_all now s ks)) (num 0) ≡ (le a (num 0) || any (is_due now s) ks)
    unfolding min_from
    min_from-le now s a [] = ground arith
    min_from-le now s a (k ∷ ks) =
        min_from-le now s (min_of a (remaining now s k)) ks
        ∙ ground (arith, min-le a (remaining now s k) (num 0), remaining-le now s k)

    -- For any symbols, at least one, the wait that `next_wait_s` answers is not above zero exactly when
    -- one of them is due.
    pub next_wait-le :
        (now : F) (s : AdaptiveScheduler F) (k : String) (ks : List String)
        → le (next_wait_s now (k ∷ ks) s) (num 0) ≡ any (is_due now s) (k ∷ ks)
    unfolding next_wait_s
    next_wait-le now s k ks =
        min_from-le now s (remaining now s k) ks
        ∙ ap (λ b. b || any (is_due now s) ks) (remaining-le now s k)

module _ {F : Type 0} ⦃f : Float F⦄ where
  -- A symbol that was marked as fetched at a time is due again exactly when the interval of its level
  -- has passed since then; the mark changes nothing for other symbols.
  pub is_due-mark_fetched :
      (at now : F) (symbol k : String) (s : AdaptiveScheduler F)
      → is_due now (mark_fetched at symbol s) k
        ≡ (if symbol == k then le (interval (get_level k s) s) (sub now at) else is_due now s k)
  unfolding is_due mark_fetched
  is_due-mark_fetched at now symbol k s =
      ground (arith, get-set symbol k at s.last_fetch_mono, string_eq.beq_iff symbol k)
