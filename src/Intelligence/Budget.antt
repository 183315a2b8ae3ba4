-- ===== src/Intelligence/Budget.antt =====
-- src/market_sentinel/intelligence/coordinator.py: the counts of calls against the budget, for each
-- operation of the coordinator.
use market_sentinel.Base.{
  ◌-◌, filter, ℕ, ◌+◌, ◌≤◌, String, not, ◌≡◌, Option, none, some, List, [], ◌∷◌, leb, arith, length,
  if◌then◌else◌, Bool-cases, inl, inr,
}
use market_sentinel.Base.Eq.{string_eq}
use market_sentinel.Base.Dict.{Dict, get, set, pop, get-set, get-pop}
use market_sentinel.Domain.{Signal}
use market_sentinel.Intelligence.{EpisodeCallBudget, IntelligenceInput}
use market_sentinel.Intelligence.Router.{Affordable}
use market_sentinel.Intelligence.Work.{
  Outcome, completed, failed, call_cancelled, begin_work, settle, end_call, is_drained,
  discard_stale,
}
use market_sentinel.Intelligence.Coordinator.{
  CallTask, cancelled_task, prune_rows, tracked, IntelligenceCoordinator, IntelligenceWork,
  count_of, contains_name, maybe_forget, release_pending, cancel_in_flight, invalidate,
  invalidate_all, retire_inactive, put_work, enqueue, work_is_live, is_full,
}

-- the calls that a budget can grant one episode
abbrev pub allowance : EpisodeCallBudget → ℕ
allowance b = if b.allow_escalation_recall then b.max_calls + 1 else b.max_calls

pub Affordable-allowance :
    (b : EpisodeCallBudget) (calls : ℕ) (p : _) (last : _)
    → Affordable b calls p last
    → calls + 1 ≤ allowance b
Affordable-allowance b calls p last h = ground arith

count-pop : (k id : String) (d : Dict String ℕ) → count_of id (pop k d) ≤ count_of id d
count-pop k id d = ground (arith, get-pop k id d)

count-set :
    (k id : String) (n m : ℕ) (d : Dict String ℕ)
    → n ≤ m
    → count_of id d ≤ m
    → count_of id (set k n d) ≤ m
count-set k id n m d h g = ground (arith, get-set k id n d)

module _ {F : Type 0} where
  -- The coordinator has this budget, and no count of calls is past its allowance.
  pub record InBudget (b : EpisodeCallBudget) (c : IntelligenceCoordinator F) : Type 0 where
    pub same : c.budget ≡ b
    pub within : (id : String) → count_of id c.calls ≤ allowance b

  maybe_forget-InBudget :
      (b : EpisodeCallBudget) (id : String) (c : IntelligenceCoordinator F)
      → InBudget b c
      → InBudget b (maybe_forget id c)
  unfolding maybe_forget
  maybe_forget-InBudget b id c h = elim (Bool-cases (contains_name id c.active_ids)) [
    | inl e ↦ rw e h
    | inr e ↦ elim (Bool-cases (leb (count_of id c.pending) 0)) [
      | inl g ↦ rw e (
          rw g (record {
            same = h.same;
            within = λ i. omega (arith, count-pop id i c.calls, h.within i);
          }))
      | inr g ↦ rw e (rw g h)
    ]
  ]

  pub release_pending-InBudget :
      (b : EpisodeCallBudget) (id : String) (c : IntelligenceCoordinator F)
      → InBudget b c
      → InBudget b (release_pending id c)
  unfolding release_pending
  release_pending-InBudget b id c h = elim (Bool-cases (leb (count_of id c.pending) 1)) [
    | inl e ↦ rw e (maybe_forget-InBudget b id _ (record { same = h.same; within = h.within }))
    | inr e ↦ rw e (maybe_forget-InBudget b id _ (record { same = h.same; within = h.within }))
  ]

  pub begin_work-InBudget :
      (b : EpisodeCallBudget) (w : IntelligenceWork F) (c : IntelligenceCoordinator F)
      → InBudget b c
      → InBudget b (begin_work w c).1
  unfolding begin_work
  begin_work-InBudget b w c h = elim (Bool-cases (work_is_live w c)) [
    | inl e ↦ rw e (record { same = h.same; within = h.within })
    | inr e ↦ rw e (
        release_pending-InBudget b w.signal_id (discard_stale c)
          (record { same = h.same; within = h.within }))
  ]

  pub settle-InBudget :
      (b : EpisodeCallBudget) (elapsed now : F) (w : IntelligenceWork F) (o : Outcome F)
      (c : IntelligenceCoordinator F)
      → InBudget b c
      → InBudget b (settle elapsed now w o c)
  unfolding settle
  settle-InBudget b elapsed now w (completed x r y s) c h = elim (Bool-cases (work_is_live w c)) [
    | inl e ↦ rw e (record { same = h.same; within = h.within })
    | inr e ↦ rw e (record { same = h.same; within = h.within })
  ]
  settle-InBudget b elapsed now w (failed r) c h = elim (Bool-cases (work_is_live w c)) [
    | inl e ↦ rw e (record { same = h.same; within = h.within })
    | inr e ↦ rw e (record { same = h.same; within = h.within })
  ]
  settle-InBudget b elapsed now w call_cancelled c h = record { same = h.same; within = h.within }

  pub end_call-InBudget :
      (b : EpisodeCallBudget) (id : String) (c : IntelligenceCoordinator F)
      → InBudget b c
      → InBudget b (end_call id c)
  end_call-InBudget b id c h =
      elim (Bool-cases (
        is_drained
          (record c { in_flight_tasks = pop id c.in_flight_tasks; in_flight = c.in_flight - 1 }))) [
            | inl e ↦ rw e (record { same = h.same; within = h.within })
            | inr e ↦ rw e (record { same = h.same; within = h.within })
          ]

  cancel-InBudget :
      (b : EpisodeCallBudget) (id : String) (c : IntelligenceCoordinator F)
      → InBudget b c
      → InBudget b (cancel_in_flight id c)
  cancel-InBudget b id c h = by_task (get id c.in_flight_tasks)
    where
      by_task :
          (o : Option CallTask)
          → InBudget b (elim o [
            | none ↦ c
            | some t ↦ record c { in_flight_tasks = set id (cancelled_task t) c.in_flight_tasks }
          ])
      by_task none = h
      by_task (some t) = record { same = h.same; within = h.within }

  invalidate_all-InBudget :
      (b : EpisodeCallBudget) (ids : List String) (c : IntelligenceCoordinator F)
      → InBudget b c
      → InBudget b (invalidate_all ids c)
  unfolding invalidate
  invalidate_all-InBudget b [] c h = h
  invalidate_all-InBudget b (id ∷ ids) c h = invalidate_all-InBudget b ids _ (
      maybe_forget-InBudget b id _
        (cancel-InBudget b id _ (record { same = h.same; within = h.within })))

  pub retire-InBudget :
      (b : EpisodeCallBudget) (ids : List String) (c : IntelligenceCoordinator F)
      → InBudget b c
      → InBudget b (retire_inactive ids c)
  unfolding retire_inactive
  retire-InBudget b ids c h =
      let pruned = record c { active_ids = ids; registry = prune_rows ids c.registry } in
      invalidate_all-InBudget b (filter (λ k. not (contains_name k ids)) (tracked pruned)) pruned
        (record { same = h.same; within = h.within })

  put_work-InBudget :
      (b : EpisodeCallBudget) (p : IntelligenceInput F) (t : Signal F)
      (works : List (IntelligenceWork F)) (c : IntelligenceCoordinator F)
      → count_of p.signal_id c.calls + 1 ≤ allowance b
      → InBudget b c
      → InBudget b (put_work p t works c)
  put_work-InBudget b p t works c room h = elim (Bool-cases (is_full c.queue_size (length works))) [
    | inl e ↦ rw e (record { same = h.same; within = h.within })
    | inr e ↦ rw e (record {
      same = h.same;
      within = λ i. count-set p.signal_id i _ _ c.calls room (h.within i);
    })
  ]

  pub enqueue-InBudget :
      (b : EpisodeCallBudget) (p : IntelligenceInput F) (t : Signal F)
      (c : IntelligenceCoordinator F)
      → count_of p.signal_id c.calls + 1 ≤ allowance b
      → InBudget b c
      → InBudget b (enqueue p t c)
  unfolding enqueue
  enqueue-InBudget b p t c room h = by_queue c.queue
    where
      by_queue :
          (o : Option (List (IntelligenceWork F)))
          → InBudget b (elim o [ none ↦ c | some works ↦ put_work p t works c ])
      by_queue none = h
      by_queue (some works) = put_work-InBudget b p t works c room h
