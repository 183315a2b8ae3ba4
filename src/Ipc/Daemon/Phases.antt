-- ===== src/Ipc/Daemon/Phases.antt =====
-- The protocol that a host may rely on: the phases, as a table, and what an answer leaves alone.
use market_sentinel.Base.{String, ◌≡◌, refl, ◌∙◌, Option, none, some, List, [], ◌∷◌}
use market_sentinel.Base.Eq.{string_eq}
use market_sentinel.Base.Float.{Float}
use market_sentinel.Watchlist.Limit
use market_sentinel.Runtime.{MarketEngine}
use market_sentinel.Ipc.Json.{Json, text, object, get_field, string_of}
use market_sentinel.Ipc.Codec.{
  DaemonPhase, ErrorCode, HostCommand, encode_message, encode_error, code_value,
}
use market_sentinel.Ipc.Daemon.{MarketDaemon, Reply, send_error, send_ack}

-- the phase after a command
abbrev pub phase_after : DaemonPhase → HostCommand → DaemonPhase
phase_after DaemonPhase.shutting_down c = DaemonPhase.shutting_down
phase_after p HostCommand.shutdown = DaemonPhase.shutting_down
phase_after DaemonPhase.awaiting_hello HostCommand.hello = DaemonPhase.ready
phase_after DaemonPhase.ready HostCommand.start = DaemonPhase.running
phase_after DaemonPhase.running HostCommand.pause = DaemonPhase.paused
phase_after DaemonPhase.paused HostCommand.resume = DaemonPhase.running
phase_after p c = p

module _ {F : Type 0} where
  -- the request that an answer names
  abbrev pub reply_id : Json F → Option String
  reply_id (object fields) = string_of (get_field "request_id" fields)
  reply_id _ = none

  -- what no line touches: the market data, the scheduler and the signals; a watchlist stays well-formed
  pub record Untouched (e e' : MarketEngine F) : Type 0 where
    pub buffers : e'.buffers ≡ e.buffers
    pub scheduler : e'.scheduler ≡ e.scheduler
    pub states : e'.states ≡ e.states
    pub pipeline : e'.pipeline ≡ e.pipeline
    pub watchlist : Limit.IsValid e.watchlist → Limit.IsValid e'.watchlist

  pub Untouched-refl : (e : MarketEngine F) → Untouched e e
  Untouched-refl e = record {
    buffers = refl;
    scheduler = refl;
    states = refl;
    pipeline = refl;
    watchlist = λ v. v;
  }

  pub Untouched-trans : (a b c : MarketEngine F) → Untouched a b → Untouched b c → Untouched a c
  Untouched-trans a b c h k = record {
    buffers = k.buffers ∙ h.buffers;
    scheduler = k.scheduler ∙ h.scheduler;
    states = k.states ∙ h.states;
    pipeline = k.pipeline ∙ h.pipeline;
    watchlist = λ v. k.watchlist (h.watchlist v);
  }

  -- one answer, to the request, after which the daemon is in a phase
  abbrev pub Answered : String → DaemonPhase → MarketDaemon F → Option (Reply F) → Type 0
  Answered request_id p d none = ⊥
  Answered request_id p d (some ([], d')) = ⊥
  Answered request_id p d (some (m ∷ (n ∷ ms), d')) = ⊥
  Answered request_id p d (some (m ∷ [], d')) =
      (reply_id m ≡ some request_id) × (d'.phase ≡ p) × Untouched d.engine d'.engine

module _ {F : Type 0} ⦃f : Float F⦄ where
  pub reply_id-encode_message :
      (message_type request_id : String) (fields : List (String × Json F))
      → reply_id (encode_message message_type (some request_id) fields) ≡ some request_id
  unfolding encode_message get_field
  reply_id-encode_message message_type request_id fields = refl

  pub send_error-Answered :
      (code : ErrorCode) (message request_id : String) (d d' : MarketDaemon F)
      → Untouched d.engine d'.engine
      → Answered request_id d'.phase d (some (send_error code message (some request_id) d'))
  unfolding send_error encode_error
  send_error-Answered code message request_id d d' u = (
    reply_id-encode_message "error" request_id
        (("code", text (code_value code)) ∷ ("message", text message) ∷ []),
    refl,
    u,
  )

  pub send_ack-Answered :
      (request_id : String) (d d' : MarketDaemon F)
      → Untouched d.engine d'.engine
      → Answered request_id d'.phase d (some (send_ack request_id d'))
  unfolding send_ack
  send_ack-Answered request_id d d' u = (reply_id-encode_message "ack" request_id [], refl, u)
