-- ===== src/Ipc/HostInteraction.antt =====
-- src/market_sentinel/telemetry/host_interaction.py: what a host did with a signal.
use market_sentinel.Base.{
  String, Bool, true, false, not, Option, none, some, List, [], ◌∷◌, any, filter, if◌then◌else◌,
}
use market_sentinel.Base.Eq.{string_eq, ◌==◌}
use market_sentinel.Base.Text.{concat}
use market_sentinel.Ipc.Json.{
  Json, null, number, huge, text, Fields, JsonLibrary, get_field, keys_of,
}

-- a fact, a reason to refuse the command, or an exception that escapes
pub data Parsed (A : Type 0) : Type 0 where
  fact : A → Parsed A
  invalid : String → Parsed A
  raises : Parsed A

-- the names of `TelemetryName` that `HOST_INTERACTION_ACTIONS` has
pub data HostName : Type 0 where
  alert_presented alert_badge_reset signal_opened alert_dismissed signal_muted : HostName

pub record HostInteractionFact (F : Type 0) : Type 0 where
  pub name : HostName
  pub created_timestamp : Option F
  pub signal_id : Option String
  pub host_action : String

-- `HOST_INTERACTION_ACTIONS`
unfoldable pub name_of : String → Option HostName
name_of action =
    if action == "alert_presented"
    then some HostName.alert_presented
    else if action == "alert_badge_reset"
    then some HostName.alert_badge_reset
    else if action == "signal_opened"
    then some HostName.signal_opened
    else if action == "alert_dismissed"
    then some HostName.alert_dismissed
    else if action == "signal_muted"
    then some HostName.signal_muted
    else none

-- `_HOST_ACTION`
unfoldable pub host_action_of : HostName → String
host_action_of HostName.alert_presented = "presented"
host_action_of HostName.alert_badge_reset = "reset_unread"
host_action_of HostName.signal_opened = "opened"
host_action_of HostName.alert_dismissed = "dismissed"
host_action_of HostName.signal_muted = "muted"

-- membership in `_SIGNAL_REQUIRED`
abbrev pub needs_signal : HostName → Bool
needs_signal HostName.alert_badge_reset = false
needs_signal _ = true

-- `_ALLOWED_KEYS`
abbrev pub allowed_keys : List String
allowed_keys =
    "protocol_version" ∷ "type" ∷ "request_id" ∷ "action" ∷ "signal_id" ∷ "created_timestamp" ∷ []

-- `TELEMETRY_DENYLIST`
abbrev pub telemetry_denylist : List String
telemetry_denylist =
    "workspace" ∷ "source_code" ∷ "conversation" ∷ "files" ∷ "ticks" ∷ "snapshots" ∷ "ring_buffer"
    ∷ "features" ∷ "prompt" ∷ "api_key" ∷ "title" ∷ "summary" ∷ "reason" ∷ "notes" ∷ "session_id"
    ∷ "event_ids" ∷ "rule_names" ∷ "priority_reason" ∷ "delete_event" ∷ "rewrite_threshold"
    ∷ "mutate_signal" ∷ "apply_online" ∷ []

-- `key in keys`
abbrev pub is_key : String → List String → Bool
is_key key keys = any (λ k. k == key) keys

-- `set(command) - allowed`
unfoldable pub extra_keys : {F : Type 0} → List String → Fields F → List String
extra_keys allowed fields = filter (λ k. not (is_key k allowed)) (keys_of fields)

-- `extra & TELEMETRY_DENYLIST`
unfoldable pub denied_keys : List String → List String
denied_keys extra = filter (λ k. is_key k telemetry_denylist) extra

-- the refusal of extra keys, if there are any
abbrev pub refuse_keys :
    {A F : Type 0} → JsonLibrary F → List String → List String → Parsed A → Parsed A
refuse_keys lib [] [] otherwise = otherwise
refuse_keys lib (d ∷ ds) extra otherwise =
    invalid (concat ("denied keys: " ∷ lib.sorted_keys (d ∷ ds) ∷ []))
refuse_keys lib [] (e ∷ es) otherwise =
    invalid (concat ("unknown keys: " ∷ lib.sorted_keys (e ∷ es) ∷ []))

module _ {F : Type 0} where
  -- `float(created)` where it is a finite number
  abbrev pub timestamp_of : Json F → Parsed F
  timestamp_of (number x) = fact x
  timestamp_of huge = raises
  timestamp_of _ = invalid "created_timestamp must be a finite number"

  abbrev pub optional_timestamp : Option (Json F) → Parsed (Option F)
  optional_timestamp none = fact none
  optional_timestamp (some null) = fact none
  optional_timestamp (some (number x)) = fact (some x)
  optional_timestamp (some huge) = raises
  optional_timestamp (some _) = invalid "created_timestamp must be a finite number"

  -- `signal_id` where it is absent or a string that is not blank
  abbrev pub optional_signal : JsonLibrary F → Option (Json F) → Parsed (Option String)
  optional_signal lib none = fact none
  optional_signal lib (some null) = fact none
  optional_signal lib (some (text s)) =
      if lib.strip s == ""
      then invalid "signal_id must be a non-empty string when present"
      else fact (some s)
  optional_signal lib (some _) = invalid "signal_id must be a non-empty string when present"

  -- the end of `parse_host_interaction`, where all fields are checked
  abbrev pub interaction :
      HostName → String → Option F → Option String → Parsed (HostInteractionFact F)
  interaction name action created none =
      if needs_signal name
      then invalid (concat (action ∷ " requires signal_id" ∷ []))
      else fact (record {
        name = name;
        created_timestamp = created;
        signal_id = none;
        host_action = host_action_of name;
      })
  interaction name action created (some signal_id) = fact (record {
    name = name;
    created_timestamp = created;
    signal_id = if needs_signal name then some signal_id else none;
    host_action = host_action_of name;
  })

  abbrev pub with_signal :
      HostName → String → Option F → Parsed (Option String) → Parsed (HostInteractionFact F)
  with_signal name action created (fact signal_id) = interaction name action created signal_id
  with_signal name action created (invalid reason) = invalid reason
  with_signal name action created raises = raises

  abbrev pub with_created :
      HostName
      → String
      → Parsed (Option F)
      → Parsed (Option String)
      → Parsed (HostInteractionFact F)
  with_created name action (fact created) signal = with_signal name action created signal
  with_created name action (invalid reason) signal = invalid reason
  with_created name action raises signal = raises

  abbrev pub with_action :
      JsonLibrary F → Fields F → Option (Json F) → Parsed (HostInteractionFact F)
  with_action lib fields (some (text action)) = elim (name_of action) [
    | none ↦ invalid "action is invalid"
    | some name ↦
        with_created name action (optional_timestamp (get_field "created_timestamp" fields))
          (optional_signal lib (get_field "signal_id" fields))
  ]
  with_action lib fields _ = invalid "action is invalid"

  unfoldable pub parse_host_interaction : JsonLibrary F → Fields F → Parsed (HostInteractionFact F)
  unfolding extra_keys denied_keys name_of host_action_of get_field
  parse_host_interaction lib fields =
      let extra = extra_keys allowed_keys fields in
      refuse_keys lib (denied_keys extra) extra (with_action lib fields (get_field "action" fields))
