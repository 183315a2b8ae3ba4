-- ===== src/Health/Worst.antt =====
-- Failures in a row, and the aggregate of several symbols.
use market_sentinel.Base.{
  ◌+◌, ◌≤◌, String, ◌≡◌, refl, ap, ◌∙◌, ◌⊎◌, Bool, true, ◌||◌, some, List, [], ◌∷◌, arith,
  Option-cases, inl, inr, All, any, or_else, length, subst,
}
use market_sentinel.Base.Eq.{string_eq, ◌==◌, beq_refl}
use market_sentinel.Base.Dict.{get, set, get-set}
use market_sentinel.Base.Float.{Float}
use market_sentinel.Domain.{FeedStatus, status_eq}
use market_sentinel.Health.{
  FeedHealthTracker, failure, worst, worse, compute_seen, compute_unseen, compute, peek_status,
  status, note, observe, worst_from, aggregate_status, new_health, consecutive_failures,
}
use market_sentinel.Health.Status.{status-peek_status}

one_of :
    (b c p a : FeedStatus) (x y : Bool)
    → c ≡ p
    → x ≡ y
    → (worse b c ≡ a) ⊎ (x ≡ true)
    → (b ≡ a) ⊎ (((p == a) || y) ≡ true)
one_of b c p a x y e q h = ground (arith, status_eq.beq_iff p a)

first_or_rest :
    (b p a : FeedStatus) (x y : Bool)
    → b ≡ p
    → x ≡ y
    → (b ≡ a) ⊎ (x ≡ true)
    → ((p == a) || y) ≡ true
first_or_rest b p a x y e q h = ground (arith, status_eq.beq_iff p a)

module _ {F : Type 0} ⦃f : Float F⦄ where
  consecutive_failures-status :
      (now : F) (symbol : String) (t : FeedHealthTracker F)
      → (consecutive_failures symbol (status now symbol t).1 ≡ consecutive_failures symbol t)
        × ((status now symbol t).1.policy ≡ t.policy)
  unfolding status consecutive_failures
  consecutive_failures-status now symbol t = elim (Option-cases (get symbol t.symbols)) [
    | inl e ↦ (rw (e, status), rw (e, status))
    | inr (r, e) ↦
        let answer = some (compute now t.policy (get symbol t.symbols)) in
        let kept = get-set symbol symbol (record r { last_status = answer }) t.symbols in
        (ground (arith, e, kept, beq_refl symbol), rw (e, status))
  ]

  -- the failures of one symbol, at the given times
  abbrev pub fail_all : String → List F → FeedHealthTracker F → FeedHealthTracker F
  fail_all symbol [] t = t
  fail_all symbol (now ∷ times) t = fail_all symbol times (observe now symbol failure t).1

  failure_counts :
      (now : F) (symbol : String) (t : FeedHealthTracker F)
      → (consecutive_failures symbol (observe now symbol failure t).1
          ≡ consecutive_failures symbol t + 1)
        × ((observe now symbol failure t).1.policy ≡ t.policy)
  unfolding observe
  failure_counts now symbol t =
      let r = note now failure (or_else (get symbol t.symbols) new_health) in
      let u : FeedHealthTracker F = record t { symbols = set symbol r t.symbols } in
      let (n, p) = consecutive_failures-status now symbol u in
      (
        n
            ∙ (unfold consecutive_failures note in
                ground (arith, get-set symbol symbol r t.symbols, beq_refl symbol)),
        p,
      )

  fail_all-counts :
      (symbol : String) (times : List F) (t : FeedHealthTracker F)
      → (consecutive_failures symbol (fail_all symbol times t)
          ≡ consecutive_failures symbol t + length times)
        × ((fail_all symbol times t).policy ≡ t.policy)
  fail_all-counts symbol [] t = (omega arith, refl)
  fail_all-counts symbol (now ∷ times) t =
      let (n, p) = failure_counts now symbol t in
      let (ns, ps) = fail_all-counts symbol times (observe now symbol failure t).1 in
      (omega arith, ps ∙ p)

  enough_failures :
      (now : F) (symbol : String) (t : FeedHealthTracker F)
      → t.policy.disconnect_failures ≤ consecutive_failures symbol t
      → peek_status now symbol t ≡ FeedStatus.disconnected
  unfolding peek_status compute compute_seen compute_unseen consecutive_failures
  enough_failures now symbol t h = ground arith

  -- Once a symbol has failed as often in a row as the policy allows, at whatever times, it is
  -- DISCONNECTED, and stays so at any time until it is observed again.
  pub fail_all_disconnects :
      (symbol : String) (times : List F) (now : F) (t : FeedHealthTracker F)
      → t.policy.disconnect_failures ≤ consecutive_failures symbol t + length times
      → peek_status now symbol (fail_all symbol times t) ≡ FeedStatus.disconnected
  fail_all_disconnects symbol times now t h =
      let (n, p) = fail_all-counts symbol times t in
      enough_failures now symbol (fail_all symbol times t) (rw p (omega arith))

  -- `a` is the worst of the statuses of the symbols and of `b`, and one of them
  abbrev IsWorst : F → FeedHealthTracker F → FeedStatus → List String → FeedStatus → Type 0
  IsWorst now t b symbols a =
      (worst b ≤ worst a)
      × All (λ k. worst (peek_status now k t) ≤ worst a) symbols
      × ((b ≡ a) ⊎ (any (λ k. peek_status now k t == a) symbols ≡ true))

  All-same :
      (now : F) (t u : FeedHealthTracker F) (a : FeedStatus) (symbols : List String)
      → ((k : String) → peek_status now k t ≡ peek_status now k u)
      → All (λ k. worst (peek_status now k t) ≤ worst a) symbols
      → All (λ k. worst (peek_status now k u) ≤ worst a) symbols
  All-same now t u a [] same h = tt
  All-same now t u a (k ∷ ks) same (h, hs) =
      (subst (λ b. worst b ≤ worst a) (same k) h, All-same now t u a ks same hs)

  any-same :
      (now : F) (t u : FeedHealthTracker F) (a : FeedStatus) (symbols : List String)
      → ((k : String) → peek_status now k t ≡ peek_status now k u)
      → any (λ k. peek_status now k t == a) symbols ≡ any (λ k. peek_status now k u == a) symbols
  any-same now t u a [] same = refl
  any-same now t u a (k ∷ ks) same =
      ap (λ b. (b == a) || any (λ j. peek_status now j t == a) ks) (same k)
      ∙ ap (λ x. (peek_status now k u == a) || x) (any-same now t u a ks same)

  worst_from-IsWorst :
      (now : F) (b : FeedStatus) (symbols : List String) (t : FeedHealthTracker F)
      → IsWorst now t b symbols (worst_from now b symbols t).0
  unfolding worst_from
  worst_from-IsWorst now b [] t = (omega arith, tt, inl refl)
  worst_from-IsWorst now b (k ∷ ks) t =
      let c = (status now k t).0 in
      let u = (status now k t).1 in
      let a = (worst_from now (worse b c) ks u).0 in
      let head : c ≡ peek_status now k t = (status-peek_status now now k k t).0 in
      let same : (j : String) → peek_status now j u ≡ peek_status now j t =
        λ j. (status-peek_status now now k j t).1 in
      let (up, below, one) = worst_from-IsWorst now (worse b c) ks u in
      let found : any (λ j. peek_status now j u == a) ks ≡ any (λ j. peek_status now j t == a) ks =
        any-same now u t a ks same in
      let rest : All (λ j. worst (peek_status now j t) ≤ worst a) ks =
        All-same now u t a ks same below in
      (
        ground (arith, up),
        (subst (λ x. worst x ≤ worst a) head (ground (arith, up)), rest),
        one_of b c (peek_status now k t) a _ _ head found one,
      )

  -- The aggregate of any symbols, at least one, is a status of one of them, and no status of one of them
  -- is worse.
  pub aggregate_status-IsWorst :
      (now : F) (symbol : String) (symbols : List String) (t : FeedHealthTracker F)
      → let a = (aggregate_status now (symbol ∷ symbols) t).0 in
        All (λ k. worst (peek_status now k t) ≤ worst a) (symbol ∷ symbols)
        × (any (λ k. peek_status now k t == a) (symbol ∷ symbols) ≡ true)
  unfolding aggregate_status
  aggregate_status-IsWorst now symbol symbols t =
      let b = (status now symbol t).0 in
      let u = (status now symbol t).1 in
      let a = (worst_from now b symbols u).0 in
      let head : b ≡ peek_status now symbol t = (status-peek_status now now symbol symbol t).0 in
      let same : (j : String) → peek_status now j u ≡ peek_status now j t =
        λ j. (status-peek_status now now symbol j t).1 in
      let (up, below, one) = worst_from-IsWorst now b symbols u in
      (
        (subst (λ x. worst x ≤ worst a) head up, All-same now u t a symbols same below),
        first_or_rest b (peek_status now symbol t) a _ _ head (any-same now u t a symbols same) one,
      )
