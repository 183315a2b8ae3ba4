-- ===== src/Health/Status.antt =====
-- How a feed's status moves with time, failures and snapshots, and the worst of several.
use market_sentinel.Base.{
  List, [], ◌∷◌, subst, ◌≤◌, ◌<◌, String, ◌≡◌, refl, sym, ap, ◌∙◌, ◌⊎◌, Option, none, some, arith,
  Bool-cases, Option-cases, inl, inr, or_else,
}
use market_sentinel.Base.Eq.{string_eq, ◌==◌, beq_refl}
use market_sentinel.Base.Dict.{get, set, get-set}
use market_sentinel.Base.Float.{Float, IsOrdered, IsMonotone, sub, num, ◌≼◌, ◌≺◌}
use market_sentinel.Domain.{FeedStatus, status_eq, MarketSnapshot}
use market_sentinel.Health.{
  HealthPolicy, SymbolHealth, FeedHealthTracker, Observation, quote, worst, compute_seen,
  compute_at, compute, peek_status, status, note, observe, new_health,
}

module _ {F : Type 0} ⦃f : Float F⦄ where
  compute_seen_mono :
      (laws : IsOrdered F) (p : HealthPolicy F) (r : SymbolHealth F) (a b : F)
      → a ≼ b
      → worst (compute_seen p r a) ≤ worst (compute_seen p r b)
  unfolding compute_seen
  compute_seen_mono laws p r a b h =
      ground (arith, laws.le_trans p.disconnect_s a b, laws.le_trans p.stale_s a b)

  unchanged_mono :
      (laws : IsOrdered F) (mono : IsMonotone F) (now later : F) (k : String)
      (t : FeedHealthTracker F)
      → now ≼ later
      → worst (peek_status now k t) ≤ worst (peek_status later k t)
  unfolding peek_status compute
  unchanged_mono laws mono now later k t h = by_record (get k t.symbols)
    where
      by_time :
          (r : SymbolHealth F) (o : Option F)
          → worst (compute_at now t.policy r o) ≤ worst (compute_at later t.policy r o)
      by_time r none = omega arith
      by_time r (some last) =
          compute_seen_mono laws t.policy r (sub now last) (sub later last)
            (mono.sub_mono now later last h)

      by_record :
          (o : Option (SymbolHealth F))
          → worst (compute now t.policy o) ≤ worst (compute later t.policy o)
      by_record none = omega arith
      by_record (some r) = by_time r r.last_success_mono

  -- `status` answers what `peek_status` answers, and what it records is not read again: the status of
  -- every symbol stays as it was.
  pub status-peek_status :
      (now later : F) (symbol k : String) (t : FeedHealthTracker F)
      → ((status now symbol t).0 ≡ peek_status now symbol t)
        × (peek_status later k (status now symbol t).1 ≡ peek_status later k t)
  unfolding status peek_status
  status-peek_status now later symbol k t = (
    refl,
    elim (Option-cases (get symbol t.symbols)) [
      | inl e ↦ rw (e, status)
      | inr (r, e) ↦
          rw (e, status)
            (elim (Bool-cases (symbol == k)) [
              | inl q ↦
                  let same : get k t.symbols ≡ some r =
                    ap (λ j. get j t.symbols) (sym ((string_eq.beq_iff symbol k).0 q)) ∙ e in
                  rw (get-set, q, same) (unfold compute in refl)
              | inr q ↦ rw (get-set, q)
            ])
    ],
  )

  -- `status` of symbols at times, one after the other
  abbrev pub ask_all : List (F × String) → FeedHealthTracker F → FeedHealthTracker F
  ask_all [] t = t
  ask_all ((now, symbol) ∷ asked) t = ask_all asked (status now symbol t).1

  peek_status-ask_all :
      (later : F) (k : String) (asked : List (F × String)) (t : FeedHealthTracker F)
      → peek_status later k (ask_all asked t) ≡ peek_status later k t
  peek_status-ask_all later k [] t = refl
  peek_status-ask_all later k ((now, symbol) ∷ asked) t =
      peek_status-ask_all later k asked (status now symbol t).1
      ∙ (status-peek_status now later symbol k t).1

  -- While a tracker is only asked, by any calls of `status`, and neither `observe` nor `keep_alive` is
  -- called, the status of a symbol never gets better as the clock moves on.
  pub peek_status_mono :
      (laws : IsOrdered F) (mono : IsMonotone F) (now later : F) (k : String)
      (asked : List (F × String)) (t : FeedHealthTracker F)
      → now ≼ later
      → worst (peek_status now k t) ≤ worst (peek_status later k (ask_all asked t))
  peek_status_mono laws mono now later k asked t h =
      subst (λ s. worst (peek_status now k t) ≤ worst s) (sym (peek_status-ask_all later k asked t))
        (unchanged_mono laws mono now later k t h)

  pub peek_status-observe :
      (now later : F) (symbol : String) (o : Observation F) (t : FeedHealthTracker F)
      → peek_status later symbol (observe now symbol o t).1
        ≡ compute later t.policy (some (note now o (or_else (get symbol t.symbols) new_health)))
  peek_status-observe now later symbol o t =
      let r = note now o (or_else (get symbol t.symbols) new_health) in
      let u : FeedHealthTracker F = record t { symbols = set symbol r t.symbols } in
      unfold observe in
      ((status-peek_status now later symbol symbol u).1
        ∙ (unfold peek_status in rw (get-set, beq_refl)))

  -- A snapshot makes a symbol LIVE or DELAYED at once, whatever its failures were, under a policy whose
  -- failure count and age limits are positive.
  pub observe_recovers :
      (laws : IsOrdered F) (mono : IsMonotone F) (now : F) (symbol : String) (s : MarketSnapshot F)
      (t : FeedHealthTracker F)
      → 0 < t.policy.disconnect_failures
      → num 0 ≺ t.policy.stale_s
      → num 0 ≺ t.policy.disconnect_s
      → (peek_status now symbol (observe now symbol (quote s) t).1 ≡ FeedStatus.live)
        ⊎ (peek_status now symbol (observe now symbol (quote s) t).1 ≡ FeedStatus.delayed)
  observe_recovers laws mono now symbol s t few young near = rw peek_status-observe (
      unfold compute note compute_seen in
      ground (
        arith,
        mono.sub_nonpos now now,
        laws.le_refl now,
        laws.lt-eq-not-le (num 0) t.policy.stale_s,
        laws.lt-eq-not-le (num 0) t.policy.disconnect_s,
        laws.le_trans t.policy.stale_s (sub now now) (num 0),
        laws.le_trans t.policy.disconnect_s (sub now now) (num 0),
      ))
