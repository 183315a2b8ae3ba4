-- ===== src/Ipc/UserFeedback.antt =====
-- src/market_sentinel/telemetry/user_feedback.py: what a user said of a signal.
use market_sentinel.Base.{String, Option, none, some, List, [], ◌∷◌, if◌then◌else◌}
use market_sentinel.Base.Eq.{string_eq, ◌==◌}
use market_sentinel.Ipc.Json.{Json, null, text, Fields, JsonLibrary, get_field}
use market_sentinel.Ipc.HostInteraction.{
  Parsed, fact, invalid, raises, extra_keys, denied_keys, refuse_keys, timestamp_of,
}

pub data FeedbackLabel : Type 0 where
  useful not_useful too_noisy too_late : FeedbackLabel

pub record UserFeedbackFact (F : Type 0) : Type 0 where
  pub signal_id : String
  pub label : FeedbackLabel
  pub created_timestamp : F

-- `_ALLOWED_KEYS`
abbrev pub feedback_keys : List String
feedback_keys =
    "protocol_version" ∷ "type" ∷ "request_id" ∷ "signal_id" ∷ "feedback_type" ∷ "created_timestamp"
    ∷ []

-- `FeedbackLabel(raw)`, with `none` for its `ValueError`
unfoldable pub label_of : String → Option FeedbackLabel
label_of raw =
    if raw == "useful"
    then some FeedbackLabel.useful
    else if raw == "not_useful"
    then some FeedbackLabel.not_useful
    else if raw == "too_noisy"
    then some FeedbackLabel.too_noisy
    else if raw == "too_late"
    then some FeedbackLabel.too_late
    else none

module _ {F : Type 0} where
  abbrev pub required_timestamp : Option (Json F) → Parsed F
  required_timestamp none = invalid "created_timestamp is required"
  required_timestamp (some null) = invalid "created_timestamp is required"
  required_timestamp (some created) = timestamp_of created

  abbrev pub feedback_at : String → FeedbackLabel → Parsed F → Parsed (UserFeedbackFact F)
  feedback_at signal_id label (fact created) =
      fact (record { signal_id = signal_id; label = label; created_timestamp = created })
  feedback_at signal_id label (invalid reason) = invalid reason
  feedback_at signal_id label raises = raises

  abbrev pub feedback_on :
      JsonLibrary F → FeedbackLabel → Fields F → Option (Json F) → Parsed (UserFeedbackFact F)
  feedback_on lib label fields (some (text signal_id)) =
      if lib.strip signal_id == ""
      then invalid "signal_id is required"
      else feedback_at signal_id label (required_timestamp (get_field "created_timestamp" fields))
  feedback_on lib label fields _ = invalid "signal_id is required"

  abbrev pub feedback_of : JsonLibrary F → Fields F → Option (Json F) → Parsed (UserFeedbackFact F)
  feedback_of lib fields (some (text raw)) = elim (label_of raw) [
    | none ↦ invalid "feedback_type is invalid"
    | some label ↦ feedback_on lib label fields (get_field "signal_id" fields)
  ]
  feedback_of lib fields _ = invalid "feedback_type is invalid"

  unfoldable pub parse_user_feedback : JsonLibrary F → Fields F → Parsed (UserFeedbackFact F)
  unfolding extra_keys denied_keys label_of get_field
  parse_user_feedback lib fields =
      let extra = extra_keys feedback_keys fields in
      refuse_keys lib (denied_keys extra) extra
        (feedback_of lib fields (get_field "feedback_type" fields))
