-- ===== src/StateStore/Fields.antt =====
-- Each field of a symbol's state is what was last written to it, whatever else was written in between.
use market_sentinel.Base.{
  String, ◌≡◌, refl, ◌∙◌, ap, Option, none, some, List, [], ◌∷◌, arith, if◌then◌else◌, Bool-cases,
  inl, inr,
}
use market_sentinel.Base.Eq.{string_eq, ◌==◌}
use market_sentinel.Base.Dict.{get, get-set}
use market_sentinel.Domain.{
  SchedulerLevel, FeedStatus, MarketFeatures, MarketSnapshot, MarketState, Signal,
}
use market_sentinel.StateStore.{
  MarketStateStore, RuntimeUpdate, with_latest, update_latest, apply_runtime, state_of,
}

-- a call that writes
pub data Write (F : Type 0) : Type 0 where
  latest_write : MarketSnapshot F → Write F
  runtime_write : RuntimeUpdate F → Write F

-- what a reader sees of a symbol: the fields, with what stands for a symbol without a state
pub record View (F : Type 0) : Type 0 where
  pub latest : Option (MarketSnapshot F)
  pub level : SchedulerLevel
  pub feed_status : FeedStatus
  pub feed_latency : Option F
  pub last_update_age : Option F
  pub features : Option (MarketFeatures F)
  pub active_signals : List (Signal F)

module _ {F : Type 0} where
  abbrev pub view : Option (MarketState F) → View F
  view none = record {
    latest = none;
    level = SchedulerLevel.cold;
    feed_status = FeedStatus.live;
    feed_latency = none;
    last_update_age = none;
    features = none;
    active_signals = [];
  }
  view (some s) = record {
    latest = s.latest;
    level = s.level;
    feed_status = s.feed_status;
    feed_latency = s.feed_latency;
    last_update_age = s.last_update_age;
    features = s.features;
    active_signals = s.active_signals;
  }

  unfoldable pub write_all : List (Write F) → MarketStateStore F → MarketStateStore F
  unfolding update_latest apply_runtime
  write_all [] s = s
  write_all (latest_write x ∷ ws) s = write_all ws (update_latest x s).1
  write_all (runtime_write u ∷ ws) s = write_all ws (apply_runtime u s).1

  -- the last value that the writes for a symbol give to a field, or the one it had
  abbrev pub last_of : {A : Type 0} → (Write F → Option A) → A → List (Write F) → A
  last_of pick a [] = a
  last_of pick a (w ∷ ws) = last_of pick (elim (pick w) [ none ↦ a | some b ↦ b ]) ws

  -- what a write for the symbol gives to each field, if anything
  abbrev pub gives_latest : String → Write F → Option (Option (MarketSnapshot F))
  gives_latest k (latest_write x) = if x.symbol == k then some (some x) else none
  gives_latest k (runtime_write u) = none

  abbrev pub given : {A : Type 0} → String → (RuntimeUpdate F → Option A) → Write F → Option A
  given k field (latest_write x) = none
  given k field (runtime_write u) = if u.symbol == k then field u else none

  abbrev pub last_view : String → View F → List (Write F) → View F
  last_view k v ws = record {
    latest = last_of (gives_latest k) v.latest ws;
    level = last_of (given k (λ u. some u.level)) v.level ws;
    feed_status = last_of (given k (λ u. some u.feed_status)) v.feed_status ws;
    feed_latency = last_of (given k (λ u. some u.feed_latency)) v.feed_latency ws;
    last_update_age = last_of (given k (λ u. some u.last_update_age)) v.last_update_age ws;
    features = last_of (given k (λ u. u.features)) v.features ws;
    active_signals = last_of (given k (λ u. u.active_signals)) v.active_signals ws;
  }

  latest_step :
      (k : String) (x : MarketSnapshot F) (s : MarketStateStore F)
      → view (state_of k (update_latest x s).1)
        ≡ last_view k (view (state_of k s)) (latest_write x ∷ [])
  unfolding update_latest state_of
  latest_step k x s = ground (
    arith,
    get-set x.symbol k (with_latest x (get x.symbol s.states)) s.states,
    string_eq.beq_iff x.symbol k,
  )

  runtime_step :
      (k : String) (u : RuntimeUpdate F) (s : MarketStateStore F)
      → view (state_of k (apply_runtime u s).1)
        ≡ last_view k (view (state_of k s)) (runtime_write u ∷ [])
  unfolding apply_runtime state_of
  runtime_step k u s = elim (Bool-cases (u.symbol == k)) [
    | inl q ↦ rw (get-set, q) (ground (arith, string_eq.beq_iff u.symbol k))
    | inr q ↦ rw (get-set, q) (ground arith)
  ]

  -- After any writes of snapshots and of runtime values, of any symbols in any order, each field of a
  -- symbol's state is the last value that was written to it for that symbol, or what it was before:
  -- snapshots never undo runtime values, runtime values never undo the snapshot, and an argument that is
  -- left out keeps the features or the signals.
  pub write_all_lem :
      (k : String) (ws : List (Write F)) (s : MarketStateStore F)
      → view (state_of k (write_all ws s)) ≡ last_view k (view (state_of k s)) ws
  unfolding write_all
  write_all_lem k [] s = refl
  write_all_lem k (latest_write x ∷ ws) s =
      write_all_lem k ws (update_latest x s).1 ∙ ap (λ v. last_view k v ws) (latest_step k x s)
  write_all_lem k (runtime_write u ∷ ws) s =
      write_all_lem k ws (apply_runtime u s).1 ∙ ap (λ v. last_view k v ws) (runtime_step k u s)
