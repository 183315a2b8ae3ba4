-- ===== src/Ipc/Daemon.antt =====
-- src/market_sentinel/ipc/daemon.py: the daemon, one line or one turn of the tick loop at a time, as the
-- lock makes them. `none` is an exception that escapes. What is written comes back as a list.
pub mod Phases
pub mod Raising
pub mod Answers
pub mod Handlers
pub mod Replies
pub mod Interleaving
pub mod Sound
pub mod Stopped
use market_sentinel.Base.{
  ℕ, String, Bool, true, false, Option, none, some, List, [], ◌∷◌, ◌++◌, map, length, if◌then◌else◌,
}
use market_sentinel.Base.Eq.{string_eq, ◌==◌}
use market_sentinel.Base.Text.{concat}
use market_sentinel.Base.Float.{Float, num}
use market_sentinel.Domain.{WatchItem}
use market_sentinel.Watchlist
use market_sentinel.Watchlist.{
  Watchlist, WatchlistError, Outcome, ok, raised, full, broken, written,
}
use market_sentinel.Priority.{Formats}
use market_sentinel.Session.{Platform}
use market_sentinel.Runtime.{Clock, Answer, MarketEngine, EngineTickResult}
use market_sentinel.Runtime.Process.{tick}
use market_sentinel.Ipc.Json.{
  Json, null, flag, number, huge, not_finite, text, array, object, Items, end, item, Fields,
  JsonLibrary, get_field, string_of, items_of, field_if, number_or_null,
}
use market_sentinel.Ipc.Codec.{
  DaemonPhase, ErrorCode, HostCommand, command_of, Decoded, blank, refused, command, escaped,
  encode_message, encode_error, decode_line,
}
use market_sentinel.Ipc.HostInteraction.{
  Parsed, fact, invalid, raises, HostInteractionFact, parse_host_interaction,
}
use market_sentinel.Ipc.UserFeedback.{UserFeedbackFact, parse_user_feedback}
use market_sentinel.Ipc.Dto.{WireIntelligence, WireAlertCandidate, candidate_to_wire, state_to_wire}
use market_sentinel.Ipc.Mapping.{map_engine_state, map_tick_alerts}

-- `__version__`
abbrev pub version : String
version = "0.7.0"

-- The daemon with what it told the telemetry, oldest last.
pub record MarketDaemon (F : Type 0) : Type 0 where
  pub engine : MarketEngine F
  pub phase : DaemonPhase
  pub interactions : List (HostInteractionFact F)
  pub feedback : List (UserFeedbackFact F)

-- What stands around the daemon: the JSON library, the intelligence registry, whether the provider's
-- source is exhausted, the clock, whether the feedback collector raises, and the texts of
-- exceptions.
pub record Surroundings (F : Type 0) : Type 0 where
  pub json : JsonLibrary F
  pub view : String → Option (WireIntelligence F)
  pub intelligence_enabled : Bool
  pub replay_complete : Bool
  pub now : F
  pub refuses : UserFeedbackFact F → Bool
  pub error_text : WatchlistError → String

-- what was sent, and the daemon after it
abbrev pub Reply : Type 0 → Type 0
Reply F = List (Json F) × MarketDaemon F

-- the items of a `set_watchlist`, or the reason to refuse them
pub data ItemsParsed : Type 0 where
  items : List WatchItem → ItemsParsed
  bad : String → ItemsParsed

-- the item of an object with a symbol
abbrev pub parse_enabled : String → Option Bool → ItemsParsed → ItemsParsed
parse_enabled symbol none rest = bad "enabled must be a boolean"
parse_enabled symbol (some enabled) (bad reason) = bad reason
parse_enabled symbol (some enabled) (items parsed) =
    items (record { symbol = symbol; enabled = enabled } ∷ parsed)

-- the phase after `_hello`
abbrev pub greeted : DaemonPhase → DaemonPhase
greeted DaemonPhase.awaiting_hello = DaemonPhase.ready
greeted phase = phase

module _ {F : Type 0} where
  -- `raw.get("enabled", True)`, if it is a bool
  abbrev pub enabled_of : Option (Json F) → Option Bool
  enabled_of none = some true
  enabled_of (some (flag b)) = some b
  enabled_of (some _) = none

  abbrev pub parse_item : Json F → ItemsParsed → ItemsParsed
  parse_item (object fields) rest = elim (string_of (get_field "symbol" fields)) [
    | none ↦ bad "each item needs a non-empty symbol"
    | some symbol ↦
        if symbol == ""
        then bad "each item needs a non-empty symbol"
        else parse_enabled symbol (enabled_of (get_field "enabled" fields)) rest
  ]
  parse_item _ rest = bad "each item needs a non-empty symbol"

  -- the loop of `_set_watchlist`, which returns at the first bad item
  unfoldable pub parse_items : Items F → ItemsParsed
  unfolding get_field
  parse_items end = items []
  parse_items (item raw rest) = parse_item raw (parse_items rest)

  abbrev pub parse_list : Option (Json F) → ItemsParsed
  parse_list (some (array raws)) = parse_items raws
  parse_list _ = bad "items must be a list"

module _ {F : Type 0} ⦃f : Float F⦄ where
  -- the daemon answers, with no other change or with a phase
  abbrev pub send : Json F → MarketDaemon F → Reply F
  send message d = (message ∷ [], d)

  unfoldable pub send_error : ErrorCode → String → Option String → MarketDaemon F → Reply F
  unfolding encode_error
  send_error code message request_id d = send (encode_error code message request_id) d

  unfoldable pub send_ack : String → MarketDaemon F → Reply F
  unfolding encode_message
  send_ack request_id d = send (encode_message "ack" (some request_id) []) d

  abbrev pub in_phase : DaemonPhase → MarketDaemon F → MarketDaemon F
  in_phase phase d = record d { phase = phase }

  -- `_require_ready`, and what follows it
  abbrev pub require_ready : String → MarketDaemon F → Option (Reply F) → Option (Reply F)
  require_ready request_id d otherwise = elim d.phase [
    | DaemonPhase.awaiting_hello ↦
        some (send_error ErrorCode.not_ready "hello is required first" (some request_id) d)
    | _ ↦ otherwise
  ]

  -- `_start`, `_pause` and `_resume`, once the daemon is ready
  abbrev pub started : DaemonPhase → String → MarketDaemon F → Reply F
  started DaemonPhase.paused request_id d =
      send_error ErrorCode.is_paused "daemon is paused; send resume" (some request_id) d
  started _ request_id d = send_ack request_id (in_phase DaemonPhase.running d)

  abbrev pub paused_from : DaemonPhase → String → MarketDaemon F → Reply F
  paused_from DaemonPhase.ready request_id d =
      send_error ErrorCode.not_started "start is required before pause" (some request_id) d
  paused_from _ request_id d = send_ack request_id (in_phase DaemonPhase.paused d)

  abbrev pub resumed_from : DaemonPhase → String → MarketDaemon F → Reply F
  resumed_from DaemonPhase.ready request_id d =
      send_error ErrorCode.not_started "start is required before resume" (some request_id) d
  resumed_from _ request_id d = send_ack request_id (in_phase DaemonPhase.running d)

  -- `_shutdown_sync`; the event that it sets is set exactly in this phase
  unfoldable pub shutdown_sync : Option String → MarketDaemon F → Reply F
  unfolding encode_message
  shutdown_sync request_id d =
      send (encode_message "shutdown_ack" request_id []) (in_phase DaemonPhase.shutting_down d)

module _ {F : Type 0} ⦃f : Float F⦄ (around : Surroundings F) where
  unfoldable pub hello : String → MarketDaemon F → Reply F
  unfolding encode_message
  hello request_id d =
      send (encode_message "ready" (some request_id) (("core_version", text version) ∷ []))
        (in_phase (greeted d.phase) d)

  -- the answer of `_set_watchlist` to what `replace` did; an `OSError` is not caught
  abbrev pub replaced : String → Outcome (Unit {0}) × Watchlist → MarketDaemon F → Option (Reply F)
  replaced request_id (ok u, w) d = some (
      send
        (encode_message "ack" (some request_id)
          (("watchlist_count", number (num (length (Watchlist.list w)))) ∷ []))
        (record d { engine = record d.engine { watchlist = w } }))
  replaced request_id (raised full, w) d = some (
      send_error ErrorCode.watchlist_full (around.error_text full) (some request_id)
        (record d { engine = record d.engine { watchlist = w } }))
  replaced request_id (raised error, w) d = some (
      send_error ErrorCode.duplicate_symbol (around.error_text error) (some request_id)
        (record d { engine = record d.engine { watchlist = w } }))
  replaced request_id (broken, w) d = none

  -- The command line makes the daemon's watchlist with `persist=False`, and then no write is asked for:
  -- the disk is one that works.
  abbrev pub set_parsed : String → ItemsParsed → MarketDaemon F → Option (Reply F)
  set_parsed request_id (bad reason) d =
      some (send_error ErrorCode.invalid_payload reason (some request_id) d)
  set_parsed request_id (items parsed) d =
      replaced request_id (Watchlist.replace parsed written d.engine.watchlist) d

  -- `_set_watchlist`, once the daemon is ready
  unfoldable pub set_watchlist : String → Fields F → MarketDaemon F → Option (Reply F)
  unfolding get_field parse_items Watchlist.replace Watchlist.list send_error encode_message
  set_watchlist request_id fields d =
      set_parsed request_id (parse_list (get_field "items" fields)) d

  -- the message of the engine's state
  unfoldable pub state_message : Option String → MarketDaemon F → Reply F
  unfolding encode_message state_to_wire map_engine_state
  state_message request_id d =
      let (wire, e) =
        map_engine_state around.view around.intelligence_enabled around.replay_complete around.now
          d.engine in
      send (encode_message "state" request_id (("state", state_to_wire wire) ∷ []))
        (record d { engine = e })

  -- `_host_interaction`, once the daemon is ready
  abbrev pub interacted :
      String → Parsed (HostInteractionFact F) → MarketDaemon F → Option (Reply F)
  interacted request_id raises d = none
  interacted request_id (invalid reason) d =
      some (send_error ErrorCode.invalid_payload reason (some request_id) d)
  interacted request_id (fact parsed) d =
      some (send_ack request_id (record d { interactions = parsed ∷ d.interactions }))

  -- `_user_feedback`, once the daemon is ready
  abbrev pub fed_back : String → Parsed (UserFeedbackFact F) → MarketDaemon F → Option (Reply F)
  fed_back request_id raises d = none
  fed_back request_id (invalid reason) d =
      some (send_error ErrorCode.invalid_payload reason (some request_id) d)
  fed_back request_id (fact parsed) d =
      if around.refuses parsed
      then some (send_error ErrorCode.invalid_payload "feedback storage failed" (some request_id) d)
      else some (send_ack request_id (record d { feedback = parsed ∷ d.feedback }))

  -- The handlers, once the request has an identifier and the daemon is not shutting down. The command
  -- `shutdown`, which has no handler of its own, is answered before.
  unfoldable pub handle : HostCommand → String → Fields F → MarketDaemon F → Option (Reply F)
  unfolding hello set_watchlist state_message parse_host_interaction parse_user_feedback send_error
      send_ack shutdown_sync
  handle HostCommand.hello request_id fields d = some (hello request_id d)
  handle HostCommand.start request_id fields d =
      require_ready request_id d (some (started d.phase request_id d))
  handle HostCommand.pause request_id fields d =
      require_ready request_id d (some (paused_from d.phase request_id d))
  handle HostCommand.resume request_id fields d =
      require_ready request_id d (some (resumed_from d.phase request_id d))
  handle HostCommand.set_watchlist request_id fields d =
      require_ready request_id d (set_watchlist request_id fields d)
  handle HostCommand.get_state request_id fields d =
      require_ready request_id d (some (state_message (some request_id) d))
  handle HostCommand.host_interaction request_id fields d =
      require_ready request_id d
        (interacted request_id (parse_host_interaction around.json fields) d)
  handle HostCommand.user_feedback request_id fields d =
      require_ready request_id d (fed_back request_id (parse_user_feedback around.json fields) d)
  handle HostCommand.shutdown request_id fields d = some (shutdown_sync (some request_id) d)

  -- the two tests before the handlers: `shutdown` is answered in every phase
  abbrev pub dispatch_in :
      DaemonPhase → HostCommand → String → Fields F → MarketDaemon F → Option (Reply F)
  dispatch_in phase HostCommand.shutdown request_id fields d =
      some (shutdown_sync (some request_id) d)
  dispatch_in DaemonPhase.shutting_down c request_id fields d =
      some (send_error ErrorCode.is_shutting_down "daemon is shutting down" (some request_id) d)
  dispatch_in phase c request_id fields d = handle c request_id fields d

  abbrev pub dispatch_identified :
      HostCommand → Option String → Fields F → MarketDaemon F → Option (Reply F)
  dispatch_identified c none fields d =
      some (send_error ErrorCode.missing_request_id "request_id is required" none d)
  dispatch_identified c (some request_id) fields d =
      let identified = dispatch_in d.phase c request_id fields d in
      if request_id == ""
      then some (send_error ErrorCode.missing_request_id "request_id is required" none d)
      else identified

  -- the test of the type against `HOST_COMMANDS`
  abbrev pub dispatch_known :
      Option HostCommand → String → Fields F → MarketDaemon F → Option (Reply F)
  dispatch_known none message_type fields d = some (
      send_error ErrorCode.unknown_type (concat ("unknown type: " ∷ message_type ∷ []))
        (string_of (get_field "request_id" fields)) d)
  dispatch_known (some c) message_type fields d =
      dispatch_identified c (string_of (get_field "request_id" fields)) fields d

  abbrev pub dispatch_decoded : Decoded F → MarketDaemon F → Option (Reply F)
  dispatch_decoded blank d = some ([], d)
  dispatch_decoded (refused error) d = some (send error d)
  dispatch_decoded (command message_type fields) d =
      dispatch_known (command_of message_type) message_type fields d
  dispatch_decoded escaped d = none

  -- `_dispatch_line`
  unfoldable pub dispatch_line : String → MarketDaemon F → Option (Reply F)
  unfolding decode_line command_of handle send_error shutdown_sync get_field
  dispatch_line line d = dispatch_decoded (decode_line around.json line) d

  -- one turn of `_stdin_loop`: the empty line is the end of the input
  unfoldable pub read_line : String → MarketDaemon F → Option (Reply F)
  unfolding dispatch_line shutdown_sync
  read_line line d = if line == "" then some (shutdown_sync none d) else dispatch_line line d

  -- the alert of `_emit_tick`, if there are candidates
  abbrev pub alert_message : List WireAlertCandidate × Option F → List (Json F)
  alert_message ([], t) = []
  alert_message (c ∷ cs, t) =
      encode_message "alert" none (
        ("candidates", array (items_of (map candidate_to_wire (c ∷ cs))))
        ∷ ("market_timestamp", number_or_null t)
        ∷ [])
      ∷ []

  -- `_emit_tick`
  unfoldable pub emit_tick : EngineTickResult F → MarketDaemon F → Reply F
  unfolding state_message map_tick_alerts encode_message candidate_to_wire
  emit_tick result d =
      let (sent, d') = state_message none d in (sent ++ alert_message (map_tick_alerts result), d')

  abbrev pub emitted :
      Option (EngineTickResult F × MarketEngine F) → MarketDaemon F → Option (Reply F)
  emitted none d = none
  emitted (some (result, e)) d = some (emit_tick result (record d { engine = e }))

module _ {F : Type 0} ⦃f : Float F⦄ (uuid : ℕ → String) (fmt : Formats F) (lib : Platform F) where
  -- one turn of `_tick_loop`, which ticks only in the phase RUNNING
  unfoldable pub tick_turn : Surroundings F → Clock F → Answer F → MarketDaemon F → Option (Reply F)
  unfolding emit_tick tick
  tick_turn around clock answer d = elim d.phase [
    | DaemonPhase.running ↦ emitted around (tick uuid fmt lib clock answer d.engine) d
    | _ ↦ some ([], d)
  ]
