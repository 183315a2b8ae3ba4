-- ===== src/Intelligence/Coordinator.antt =====
-- src/market_sentinel/intelligence/{coordinator,registry}.py: the coordinator's state, what is live, how an
-- episode is retired, and how a request is queued. Telemetry rows are left out.
use market_sentinel.Base.{
  ℕ, ◌+◌, ◌-◌, String, Bool, true, false, not, ◌&&◌, Option, none, some, List, [], ◌∷◌, ◌++◌, leb,
  eqb, length, any, filter, if◌then◌else◌, or_else,
}
use market_sentinel.Base.Eq.{string_eq, ◌==◌}
use market_sentinel.Base.Dict.{Dict, get, set, pop, keys}
use market_sentinel.Domain.{Family, direction_value, priority_value, SignalPriority, Signal}
use market_sentinel.Priority.{sorted_names}
use market_sentinel.Intelligence.{
  IntelligenceInput, EpisodeCallBudget, RouterPolicy, FallbackReason,
}

pub data IntelligenceStatus : Type 0 where
  not_requested queued running enriched fallback : IntelligenceStatus

pub record IntelligenceAnnotation (F : Type 0) : Type 0 where
  pub signal_id : String
  pub worth_highlight : Bool
  pub reason : String
  pub confidence : F
  pub summary : String
  pub created_timestamp : F

pub record IntelligenceResult (F : Type 0) : Type 0 where
  pub signal_id : String
  pub status : IntelligenceStatus
  pub requested : Bool
  pub annotation : Option (IntelligenceAnnotation F)
  pub fallback_reason : FallbackReason
  pub model_calls : ℕ
  pub router_latency_s : Option F
  pub model_latency_s : Option F
  pub parse_latency_s : Option F

pub record IntelligenceWork (F : Type 0) : Type 0 where
  pub signal_id : String
  pub payload : IntelligenceInput F
  pub generation : ℕ
  pub market_timestamp : F
  pub symbol : String
  pub family : Family
  pub direction : String
  pub priority : String

-- an `asyncio.Task` as the coordinator sees it
pub data CallTask : Type 0 where
  unfinished cancelling done : CallTask

pub record IntelligenceDiagnostics : Type 0 where
  pub router_decisions : ℕ
  pub requests_submitted : ℕ
  pub requests_suppressed : ℕ
  pub model_calls : ℕ
  pub fallback_count : ℕ
  pub timeout_count : ℕ
  pub parse_failure_count : ℕ
  pub rate_limit_count : ℕ
  pub dropped_backpressure : ℕ
  pub stale_discard : ℕ
  pub queue_depth : ℕ

-- `registry` holds the rows of the `AnnotationRegistry`.
pub record IntelligenceCoordinator (F : Type 0) : Type 0 where
  pub budget : EpisodeCallBudget
  pub policy : RouterPolicy
  pub queue_size : ℕ
  pub queue : Option (List (IntelligenceWork F))
  pub calls : Dict String ℕ
  pub last_priority : Dict String SignalPriority
  pub generation : Dict String ℕ
  pub pending : Dict String ℕ
  pub active_ids : List String
  pub in_flight_tasks : Dict String CallTask
  pub in_flight : ℕ
  pub idle : Bool
  pub registry : Dict String (IntelligenceResult F)
  pub diagnostics : IntelligenceDiagnostics

-- `id in ids`, and `d.get(id, 0)`
abbrev pub contains_name : String → List String → Bool
contains_name id ids = any (λ i. i == id) ids

abbrev pub count_of : String → Dict String ℕ → ℕ
count_of id d = or_else (get id d) 0

-- `Queue.full`
abbrev pub is_full : ℕ → ℕ → Bool
is_full maxsize n = if leb maxsize 0 then false else leb maxsize n

abbrev pub cancelled_task : CallTask → CallTask
cancelled_task CallTask.done = CallTask.done
cancelled_task _ = CallTask.cancelling

-- `AnnotationRegistry.prune`
abbrev pub pop_all : {V : Type 0} → List String → Dict String V → Dict String V
pop_all [] d = d
pop_all (k ∷ ks) d = pop_all ks (pop k d)

abbrev pub prune_rows : {V : Type 0} → List String → Dict String V → Dict String V
prune_rows ids d = pop_all (filter (λ k. not (contains_name k ids)) (keys d)) d

module _ {F : Type 0} where
  unfoldable pub maybe_forget : String → IntelligenceCoordinator F → IntelligenceCoordinator F
  maybe_forget id c =
      if contains_name id c.active_ids
      then c
      else if not (leb (count_of id c.pending) 0)
      then c
      else record c {
        calls = pop id c.calls;
        last_priority = pop id c.last_priority;
        generation = pop id c.generation;
        pending = pop id c.pending;
      }

  unfoldable pub release_pending : String → IntelligenceCoordinator F → IntelligenceCoordinator F
  unfolding maybe_forget
  release_pending id c =
      let n = count_of id c.pending in
      if leb n 1
      then maybe_forget id (record c { pending = pop id c.pending })
      else maybe_forget id (record c { pending = set id (n - 1) c.pending })

  unfoldable pub work_is_live : IntelligenceWork F → IntelligenceCoordinator F → Bool
  work_is_live work c =
      contains_name work.signal_id c.active_ids
      && elim (get work.signal_id c.generation) [ none ↦ false | some g ↦ eqb work.generation g ]

  -- `_store`, with the registry's `put`
  unfoldable pub store :
      IntelligenceWork F
      → IntelligenceResult F
      → IntelligenceCoordinator F
      → IntelligenceCoordinator F
  unfolding work_is_live
  store work result c =
      if not (work_is_live work c)
      then c
      else record c { registry = set result.signal_id result c.registry }

  abbrev pub cancel_in_flight : String → IntelligenceCoordinator F → IntelligenceCoordinator F
  cancel_in_flight id c = elim (get id c.in_flight_tasks) [
    | none ↦ c
    | some t ↦ record c { in_flight_tasks = set id (cancelled_task t) c.in_flight_tasks }
  ]

  unfoldable pub invalidate : String → IntelligenceCoordinator F → IntelligenceCoordinator F
  unfolding maybe_forget
  invalidate id c = maybe_forget id (
      cancel_in_flight id (record c {
        generation = set id (count_of id c.generation + 1) c.generation;
        registry = pop id c.registry;
      }))

  abbrev pub invalidate_all : List String → IntelligenceCoordinator F → IntelligenceCoordinator F
  invalidate_all [] c = c
  invalidate_all (id ∷ ids) c = invalidate_all ids (invalidate id c)

  -- the identifiers that are tracked, each one once
  abbrev pub tracked : IntelligenceCoordinator F → List String
  tracked c = sorted_names (
      keys c.calls
      ++ (keys c.generation ++ (keys c.last_priority ++ (keys c.pending ++ keys c.registry))))

  unfoldable pub retire_inactive :
      List String → IntelligenceCoordinator F → IntelligenceCoordinator F
  unfolding invalidate sorted_names
  retire_inactive ids c =
      let pruned = record c { active_ids = ids; registry = prune_rows ids c.registry } in
      invalidate_all (filter (λ k. not (contains_name k ids)) (tracked pruned)) pruned

  abbrev pub queued_result : String → ℕ → IntelligenceResult F
  queued_result id calls = record {
    signal_id = id;
    status = IntelligenceStatus.queued;
    requested = true;
    annotation = none;
    fallback_reason = FallbackReason.no_reason;
    model_calls = calls;
    router_latency_s = none;
    model_latency_s = none;
    parse_latency_s = none;
  }

  -- `_enqueue` once there is a queue; what the work says besides the payload is read off the signal
  abbrev pub put_work :
      IntelligenceInput F
      → Signal F
      → List (IntelligenceWork F)
      → IntelligenceCoordinator F
      → IntelligenceCoordinator F
  put_work payload signal works c =
      let id = payload.signal_id in
      let g = count_of id c.generation + 1 in
      let calls = count_of id c.calls + 1 in
      let d = c.diagnostics in
      if is_full c.queue_size (length works)
      then record c { diagnostics = record d { dropped_backpressure = d.dropped_backpressure + 1 } }
      else record c {
        queue = some (
            works
            ++ ((record {
              signal_id = id;
              payload = payload;
              generation = g;
              market_timestamp = signal.market_timestamp;
              symbol = signal.symbol;
              family = signal.family;
              direction = direction_value signal.direction;
              priority = priority_value signal.priority;
            })
                ∷ []));
        generation = set id g c.generation;
        calls = set id calls c.calls;
        last_priority = set id payload.priority c.last_priority;
        pending = set id (count_of id c.pending + 1) c.pending;
        idle = false;
        registry = set id (queued_result id calls) c.registry;
        diagnostics = record d { requests_submitted = d.requests_submitted + 1 };
      }

  unfoldable pub enqueue :
      IntelligenceInput F → Signal F → IntelligenceCoordinator F → IntelligenceCoordinator F
  enqueue payload signal c = elim c.queue [
    | none ↦ c
    | some works ↦ put_work payload signal works c
  ]
