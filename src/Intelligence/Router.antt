-- ===== src/Intelligence/Router.antt =====
-- src/market_sentinel/intelligence/router.py: when a request to the model is made.
use market_sentinel.Base.{
  refl, not, ◌&&◌, if◌then◌else◌, ℕ, ◌≤◌, ◌<◌, Bool, true, false, ◌≡◌, ◌≢◌, ◌↔◌, ◌⊎◌, Option, none,
  some, length, any, or_else, arith,
}
use market_sentinel.Domain.{FeedStatus, SignalPriority, priority_rank}
use market_sentinel.Priority.{sorted_names}
use market_sentinel.Intelligence.{
  RouterDecision, FallbackReason, decision, IntelligenceInput, RouterPolicy, EpisodeCallBudget,
  default_policy, default_budget, is_price_type, is_volume_type, is_breakout_type, is_unhealthy,
  is_candidate, lacks_features, budget_allows_call, decide, need_intelligence,
}

-- a call is left: one of the ordinary ones, or the one recall that a rise in priority pays for
abbrev pub Affordable : EpisodeCallBudget → ℕ → SignalPriority → Option SignalPriority → Type 0
Affordable budget calls current last =
    (calls < budget.max_calls)
    ⊎ ((budget.allow_escalation_recall ≡ true)
        × (calls ≡ budget.max_calls)
        × ((p : SignalPriority) × (last ≡ some p) × (priority_rank p < priority_rank current)))

pub budget_allows_call_iff :
    (budget : EpisodeCallBudget) (calls : ℕ) (p : SignalPriority) (last : Option SignalPriority)
    → (budget_allows_call budget calls p last ≡ true) ↔ Affordable budget calls p last
unfolding budget_allows_call
budget_allows_call_iff budget calls p none = ground arith
budget_allows_call_iff budget calls p (some q) = ground arith

-- a test that turns the request down
stop_iff :
    (b : Bool) (r : FallbackReason) (c : Bool) (d : RouterDecision)
    → ((if b then decision false r c else d).requested ≡ true)
      ↔ ((b ≡ false) × (d.requested ≡ true))
stop_iff true r c d = ground arith
stop_iff false r c d = ground arith

edge_iff : (a b : Bool) → ((a && not b) ≡ false) ↔ (a ≡ true → b ≡ true)
edge_iff a b = ground arith

not_iff : (a : Bool) → (not a ≡ false) ↔ (a ≡ true)
not_iff a = ground arith

healthy_iff :
    (s : FeedStatus)
    → (is_unhealthy s ≡ false) ↔ ((s ≢ FeedStatus.stale) × (s ≢ FeedStatus.disconnected))
healthy_iff FeedStatus.live = ground arith
healthy_iff FeedStatus.delayed = ground arith
healthy_iff FeedStatus.stale = ground arith
healthy_iff FeedStatus.disconnected = ground arith

module _ {F : Type 0} where
  -- high enough a priority, or a move with volume that breaks out or converges
  abbrev pub Notable : RouterPolicy → IntelligenceInput F → Type 0
  Notable policy row =
      (priority_rank policy.min_priority ≤ priority_rank row.priority)
      ⊎ ((any is_price_type row.event_types ≡ true)
          × (any is_volume_type row.event_types ≡ true)
          × ((any is_breakout_type row.event_types ≡ true)
              ⊎ (policy.min_convergence_types ≤ length (sorted_names row.event_types))))

  -- what a request needs
  pub record Wanted (policy : RouterPolicy) (budget : EpisodeCallBudget) (row : IntelligenceInput F)
      : Type 0 where
    pub current : row.expired ≡ false
    pub on_edge : policy.require_alert_edge ≡ true → row.alert_edge ≡ true
    pub fed : (row.feed_status ≢ FeedStatus.stale) × (row.feed_status ≢ FeedStatus.disconnected)
    pub measured :
        ¬ ((row.change_1m ≡ none) × (row.change_5m ≡ none) × (row.volume_ratio_5m ≡ none))
    pub notable : Notable policy row
    pub affordable :
        Affordable budget row.episode_call_count row.priority row.last_requested_priority

  pub is_candidate_iff :
      (row : IntelligenceInput F) (policy : RouterPolicy)
      → (is_candidate row policy ≡ true) ↔ Notable policy row
  unfolding is_candidate
  is_candidate_iff row policy = ground arith

  measured_iff :
      (row : IntelligenceInput F)
      → (lacks_features row ≡ false)
        ↔ (¬ ((row.change_1m ≡ none) × (row.change_5m ≡ none) × (row.volume_ratio_5m ≡ none)))
  unfolding lacks_features
  measured_iff row = ground arith

  -- the tests of the router, one by one
  abbrev pub Passed : RouterPolicy → EpisodeCallBudget → IntelligenceInput F → Type 0
  Passed policy budget row =
      (row.expired ≡ false)
      × (policy.require_alert_edge ≡ true → row.alert_edge ≡ true)
      × (is_unhealthy row.feed_status ≡ false)
      × (lacks_features row ≡ false)
      × (is_candidate row policy ≡ true)
      × (budget_allows_call budget row.episode_call_count row.priority row.last_requested_priority
          ≡ true)

  requested-Passed :
      (row : IntelligenceInput F) (policy : RouterPolicy) (budget : EpisodeCallBudget)
      → (decide row policy budget).requested ≡ true
      → Passed policy budget row
  unfolding decide
  requested-Passed row policy budget h =
      let (e, h1) = (stop_iff row.expired _ _ _).0 h in
      let (g, h2) = (stop_iff (policy.require_alert_edge && not row.alert_edge) _ _ _).0 h1 in
      let (u, h3) = (stop_iff (is_unhealthy row.feed_status) _ _ _).0 h2 in
      let (l, h4) = (stop_iff (lacks_features row) _ _ _).0 h3 in
      let (c, h5) = (stop_iff (not (is_candidate row policy)) _ _ _).0 h4 in
      let (b, h6) = (stop_iff (not _) _ _ _).0 h5 in
      (e, (edge_iff _ _).0 g, u, l, (not_iff _).0 c, (not_iff _).0 b)

  Passed-requested :
      (row : IntelligenceInput F) (policy : RouterPolicy) (budget : EpisodeCallBudget)
      → Passed policy budget row
      → (decide row policy budget).requested ≡ true
  unfolding decide
  Passed-requested row policy budget (e, g, u, l, c, b) = rw e (
      rw ((edge_iff policy.require_alert_edge row.alert_edge).1 g) (rw u (rw l (rw c (rw b refl)))))

  decide_iff :
      (row : IntelligenceInput F) (policy : RouterPolicy) (budget : EpisodeCallBudget)
      → ((decide row policy budget).requested ≡ true) ↔ Wanted policy budget row
  decide_iff row policy budget = (to, from)
    where
      spent :
          (budget_allows_call budget row.episode_call_count row.priority row.last_requested_priority
            ≡ true)
          ↔ Affordable budget row.episode_call_count row.priority row.last_requested_priority
      spent =
          budget_allows_call_iff budget row.episode_call_count row.priority
            row.last_requested_priority

      to : (decide row policy budget).requested ≡ true → Wanted policy budget row
      to h =
          let (e, g, u, l, c, b) = requested-Passed row policy budget h in
          record {
            current = e;
            on_edge = g;
            fed = (healthy_iff row.feed_status).0 u;
            measured = (measured_iff row).0 l;
            notable = (is_candidate_iff row policy).0 c;
            affordable = spent.0 b;
          }

      from : Wanted policy budget row → (decide row policy budget).requested ≡ true
      from w = Passed-requested row policy budget (
        w.current,
        w.on_edge,
        (healthy_iff row.feed_status).1 w.fed,
        (measured_iff row).1 w.measured,
        (is_candidate_iff row policy).1 w.notable,
        spent.1 w.affordable,
      )

  -- Under the policy and the budget given, or the defaults, a request is made exactly when the episode lives, an alert stands where the policy asks for one,
  -- the feed is neither stale nor cut off, one of the three features is there, the row is notable, and
  -- the budget leaves a call: an ordinary one, or the single recall, which the budget must allow and a
  -- priority above the last requested one must earn.
  pub need_intelligence_iff :
      (row : IntelligenceInput F) (p : Option RouterPolicy) (b : Option EpisodeCallBudget)
      → ((need_intelligence row p b).requested ≡ true)
        ↔ Wanted (or_else p default_policy) (or_else b default_budget) row
  unfolding need_intelligence
  need_intelligence_iff row p b =
      decide_iff row (or_else p default_policy) (or_else b default_budget)
