-- ===== src/Ipc/Codec.antt =====
-- src/market_sentinel/ipc/protocol.py and codec.py: the commands, the error codes, and one line of JSON.
use market_sentinel.Base.{
  String, Bool, false, Option, none, some, List, [], ◌∷◌, ◌++◌, if◌then◌else◌,
}
use market_sentinel.Base.Eq.{string_eq, ◌==◌}
use market_sentinel.Base.Text.{concat}
use market_sentinel.Base.Float.{Float, eq, num}
use market_sentinel.Ipc.Json.{
  Json, flag, number, text, object, Fields, Loaded, malformed, overflow, value, JsonLibrary,
  get_field, dict, field_if, string_of,
}

pub data DaemonPhase : Type 0 where
  awaiting_hello ready running paused shutting_down : DaemonPhase

pub data ErrorCode : Type 0 where
  invalid_json protocol_mismatch unknown_type missing_request_id invalid_payload : ErrorCode
  not_ready not_started is_paused is_shutting_down watchlist_full duplicate_symbol : ErrorCode

-- `str(code)`
unfoldable pub code_value : ErrorCode → String
code_value ErrorCode.invalid_json = "invalid_json"
code_value ErrorCode.protocol_mismatch = "protocol_mismatch"
code_value ErrorCode.unknown_type = "unknown_type"
code_value ErrorCode.missing_request_id = "missing_request_id"
code_value ErrorCode.invalid_payload = "invalid_payload"
code_value ErrorCode.not_ready = "not_ready"
code_value ErrorCode.not_started = "not_started"
code_value ErrorCode.is_paused = "paused"
code_value ErrorCode.is_shutting_down = "shutting_down"
code_value ErrorCode.watchlist_full = "watchlist_full"
code_value ErrorCode.duplicate_symbol = "duplicate_symbol"

-- `HOST_COMMANDS`
pub data HostCommand : Type 0 where
  hello start pause resume set_watchlist get_state : HostCommand
  host_interaction user_feedback shutdown : HostCommand

-- the command that a type names, if it is in `HOST_COMMANDS`
unfoldable pub command_of : String → Option HostCommand
command_of s =
    if s == "hello"
    then some HostCommand.hello
    else if s == "start"
    then some HostCommand.start
    else if s == "pause"
    then some HostCommand.pause
    else if s == "resume"
    then some HostCommand.resume
    else if s == "set_watchlist"
    then some HostCommand.set_watchlist
    else if s == "get_state"
    then some HostCommand.get_state
    else if s == "host_interaction"
    then some HostCommand.host_interaction
    else if s == "user_feedback"
    then some HostCommand.user_feedback
    else if s == "shutdown"
    then some HostCommand.shutdown
    else none

-- a command and its type, an error to send, a blank line, or an exception that escapes
pub data Decoded (F : Type 0) : Type 0 where
  blank : Decoded F
  refused : Json F → Decoded F
  command : String → Fields F → Decoded F
  escaped : Decoded F

module _ {F : Type 0} ⦃f : Float F⦄ where
  abbrev pub protocol_version : Json F
  protocol_version = number (num 1)

  unfoldable pub encode_message : String → Option String → List (String × Json F) → Json F
  encode_message message_type request_id fields = dict (
      ("protocol_version", protocol_version)
      ∷ ("type", text message_type)
      ∷ (field_if "request_id" text request_id ++ fields))

  unfoldable pub encode_error : ErrorCode → String → Option String → Json F
  unfolding encode_message code_value
  encode_error code message request_id =
      encode_message "error" request_id
        (("code", text (code_value code)) ∷ ("message", text message) ∷ [])

  -- `version == PROTOCOL_VERSION`, which `true` and `1.0` pass as well
  abbrev pub is_version : Option (Json F) → Bool
  is_version (some (number x)) = eq x (num 1)
  is_version (some (flag b)) = b
  is_version _ = false

  -- the checks on the type
  abbrev pub decode_type : Option String → Fields F → Decoded F
  decode_type none fields = refused (
      encode_error ErrorCode.invalid_payload "type must be a non-empty string"
        (string_of (get_field "request_id" fields)))
  decode_type (some message_type) fields =
      if message_type == ""
      then refused (
          encode_error ErrorCode.invalid_payload "type must be a non-empty string"
            (string_of (get_field "request_id" fields)))
      else command message_type fields

  -- the checks on the value that was read
  unfoldable pub decode_value : JsonLibrary F → Json F → Decoded F
  unfolding encode_error get_field
  decode_value lib (object fields) =
      if is_version (get_field "protocol_version" fields)
      then decode_type (string_of (get_field "type" fields)) fields
      else refused (
          encode_error ErrorCode.protocol_mismatch
            (concat (
              "unsupported protocol_version: "
              ∷ lib.repr (get_field "protocol_version" fields)
              ∷ []))
            (string_of (get_field "request_id" fields)))
  decode_value lib _ =
      refused (encode_error ErrorCode.invalid_json "JSON line must be an object" none)

  abbrev pub decode_loaded : JsonLibrary F → Loaded F → Decoded F
  decode_loaded lib malformed =
      refused (encode_error ErrorCode.invalid_json "line is not valid JSON" none)
  decode_loaded lib overflow = escaped
  decode_loaded lib (value v) = decode_value lib v

  unfoldable pub decode_line : JsonLibrary F → String → Decoded F
  unfolding decode_value encode_error
  decode_line lib line =
      if lib.strip line == "" then blank else decode_loaded lib (lib.loads (lib.strip line))
