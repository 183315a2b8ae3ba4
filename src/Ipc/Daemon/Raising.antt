-- ===== src/Ipc/Daemon/Raising.antt =====
-- Reading a command raises only where its timestamp is an integer beyond the floats.
use market_sentinel.Base.{
  String, Option, none, some, List, [], ◌∷◌, Bool-cases, Option-cases, inl, inr,
}
use market_sentinel.Base.Eq.{string_eq, ◌==◌}
use market_sentinel.Ipc.Json.{
  Json, null, flag, number, huge, not_finite, text, array, object, Fields, JsonLibrary, get_field,
}
use market_sentinel.Ipc.HostInteraction.{
  Parsed, fact, invalid, raises, HostName, name_of, needs_signal, allowed_keys, extra_keys,
  denied_keys, refuse_keys, optional_timestamp, optional_signal, interaction, with_created,
  with_action, parse_host_interaction,
}
use market_sentinel.Ipc.UserFeedback.{
  FeedbackLabel, feedback_keys, label_of, required_timestamp, feedback_at, feedback_on, feedback_of,
  parse_user_feedback,
}

-- a parse that does not raise
abbrev pub IsSafe : {A : Type 0} → Parsed A → Type 0
IsSafe raises = ⊥
IsSafe _ = Unit

-- not an integer beyond the floats
abbrev pub IsSmall : {F : Type 0} → Option (Json F) → Type 0
IsSmall (some huge) = ⊥
IsSmall _ = Unit

IsSafe-refuse_keys :
    {A F : Type 0} (lib : JsonLibrary F) (denied extra : List String) (otherwise : Parsed A)
    → IsSafe otherwise
    → IsSafe (refuse_keys lib denied extra otherwise)
IsSafe-refuse_keys lib [] [] otherwise h = h
IsSafe-refuse_keys lib (d ∷ ds) extra otherwise h = tt
IsSafe-refuse_keys lib [] (e ∷ es) otherwise h = tt

module _ {F : Type 0} where
  IsSafe-optional_timestamp : (o : Option (Json F)) → IsSmall o → IsSafe (optional_timestamp o)
  IsSafe-optional_timestamp none h = tt
  IsSafe-optional_timestamp (some null) h = tt
  IsSafe-optional_timestamp (some (flag b)) h = tt
  IsSafe-optional_timestamp (some (number x)) h = tt
  IsSafe-optional_timestamp (some huge) h = h
  IsSafe-optional_timestamp (some not_finite) h = tt
  IsSafe-optional_timestamp (some (text s)) h = tt
  IsSafe-optional_timestamp (some (array xs)) h = tt
  IsSafe-optional_timestamp (some (object fs)) h = tt

  IsSafe-required_timestamp : (o : Option (Json F)) → IsSmall o → IsSafe (required_timestamp o)
  IsSafe-required_timestamp none h = tt
  IsSafe-required_timestamp (some null) h = tt
  IsSafe-required_timestamp (some (flag b)) h = tt
  IsSafe-required_timestamp (some (number x)) h = tt
  IsSafe-required_timestamp (some huge) h = h
  IsSafe-required_timestamp (some not_finite) h = tt
  IsSafe-required_timestamp (some (text s)) h = tt
  IsSafe-required_timestamp (some (array xs)) h = tt
  IsSafe-required_timestamp (some (object fs)) h = tt

  IsSafe-optional_signal :
      (lib : JsonLibrary F) (o : Option (Json F)) → IsSafe (optional_signal lib o)
  IsSafe-optional_signal lib none = tt
  IsSafe-optional_signal lib (some null) = tt
  IsSafe-optional_signal lib (some (flag b)) = tt
  IsSafe-optional_signal lib (some (number x)) = tt
  IsSafe-optional_signal lib (some huge) = tt
  IsSafe-optional_signal lib (some not_finite) = tt
  IsSafe-optional_signal lib (some (text s)) = elim (Bool-cases (lib.strip s == "")) [
    | inl e ↦ rw e tt
    | inr e ↦ rw e tt
  ]
  IsSafe-optional_signal lib (some (array xs)) = tt
  IsSafe-optional_signal lib (some (object fs)) = tt

  IsSafe-interaction :
      (name : HostName) (action : String) (created : Option F) (signal : Option String)
      → IsSafe (interaction name action created signal)
  IsSafe-interaction name action created (some signal) = tt
  IsSafe-interaction name action created none = elim (Bool-cases (needs_signal name)) [
    | inl e ↦ rw e tt
    | inr e ↦ rw e tt
  ]

  IsSafe-with_created :
      (name : HostName) (action : String) (created : Parsed (Option F))
      (signal : Parsed (Option String))
      → IsSafe created
      → IsSafe signal
      → IsSafe (with_created name action created signal)
  IsSafe-with_created name action raises signal h k = h
  IsSafe-with_created name action (invalid reason) signal h k = tt
  IsSafe-with_created name action (fact created) raises h k = k
  IsSafe-with_created name action (fact created) (invalid reason) h k = tt
  IsSafe-with_created name action (fact created) (fact signal) h k =
      IsSafe-interaction name action created signal

  IsSafe-with_action :
      (lib : JsonLibrary F) (fields : Fields F) (o : Option (Json F))
      → IsSmall (get_field "created_timestamp" fields)
      → IsSafe (with_action lib fields o)
  IsSafe-with_action lib fields none h = tt
  IsSafe-with_action lib fields (some null) h = tt
  IsSafe-with_action lib fields (some (flag b)) h = tt
  IsSafe-with_action lib fields (some (number x)) h = tt
  IsSafe-with_action lib fields (some huge) h = tt
  IsSafe-with_action lib fields (some not_finite) h = tt
  IsSafe-with_action lib fields (some (text s)) h = elim (Option-cases (name_of s)) [
    | inl e ↦ rw (IsSafe, with_action, e) tt
    | inr (name, e) ↦
        rw (IsSafe, with_action, e)
          (IsSafe-with_created name s (optional_timestamp (get_field "created_timestamp" fields))
            (optional_signal lib (get_field "signal_id" fields))
            (IsSafe-optional_timestamp (get_field "created_timestamp" fields) h)
            (IsSafe-optional_signal lib (get_field "signal_id" fields)))
  ]
  IsSafe-with_action lib fields (some (array xs)) h = tt
  IsSafe-with_action lib fields (some (object fs)) h = tt

  pub parse_host_interaction-IsSafe :
      (lib : JsonLibrary F) (fields : Fields F)
      → IsSmall (get_field "created_timestamp" fields)
      → IsSafe (parse_host_interaction lib fields)
  unfolding parse_host_interaction
  parse_host_interaction-IsSafe lib fields h =
      let extra = extra_keys allowed_keys fields in
      IsSafe-refuse_keys lib (denied_keys extra) extra
        (with_action lib fields (get_field "action" fields))
        (IsSafe-with_action lib fields (get_field "action" fields) h)

  IsSafe-feedback_at :
      (signal_id : String) (label : FeedbackLabel) (created : Parsed F)
      → IsSafe created
      → IsSafe (feedback_at signal_id label created)
  IsSafe-feedback_at signal_id label (fact created) h = tt
  IsSafe-feedback_at signal_id label (invalid reason) h = tt
  IsSafe-feedback_at signal_id label raises h = h

  IsSafe-feedback_on :
      (lib : JsonLibrary F) (label : FeedbackLabel) (fields : Fields F) (o : Option (Json F))
      → IsSmall (get_field "created_timestamp" fields)
      → IsSafe (feedback_on lib label fields o)
  IsSafe-feedback_on lib label fields none h = tt
  IsSafe-feedback_on lib label fields (some null) h = tt
  IsSafe-feedback_on lib label fields (some (flag b)) h = tt
  IsSafe-feedback_on lib label fields (some (number x)) h = tt
  IsSafe-feedback_on lib label fields (some huge) h = tt
  IsSafe-feedback_on lib label fields (some not_finite) h = tt
  IsSafe-feedback_on lib label fields (some (text s)) h = elim (Bool-cases (lib.strip s == "")) [
    | inl e ↦ rw e tt
    | inr e ↦ rw e (
        IsSafe-feedback_at s label (required_timestamp (get_field "created_timestamp" fields))
          (IsSafe-required_timestamp (get_field "created_timestamp" fields) h))
  ]
  IsSafe-feedback_on lib label fields (some (array xs)) h = tt
  IsSafe-feedback_on lib label fields (some (object fs)) h = tt

  IsSafe-feedback_of :
      (lib : JsonLibrary F) (fields : Fields F) (o : Option (Json F))
      → IsSmall (get_field "created_timestamp" fields)
      → IsSafe (feedback_of lib fields o)
  IsSafe-feedback_of lib fields none h = tt
  IsSafe-feedback_of lib fields (some null) h = tt
  IsSafe-feedback_of lib fields (some (flag b)) h = tt
  IsSafe-feedback_of lib fields (some (number x)) h = tt
  IsSafe-feedback_of lib fields (some huge) h = tt
  IsSafe-feedback_of lib fields (some not_finite) h = tt
  IsSafe-feedback_of lib fields (some (text s)) h = elim (Option-cases (label_of s)) [
    | inl e ↦ rw (IsSafe, feedback_of, e) tt
    | inr (label, e) ↦
        rw (IsSafe, feedback_of, e)
          (IsSafe-feedback_on lib label fields (get_field "signal_id" fields) h)
  ]
  IsSafe-feedback_of lib fields (some (array xs)) h = tt
  IsSafe-feedback_of lib fields (some (object fs)) h = tt

  pub parse_user_feedback-IsSafe :
      (lib : JsonLibrary F) (fields : Fields F)
      → IsSmall (get_field "created_timestamp" fields)
      → IsSafe (parse_user_feedback lib fields)
  unfolding parse_user_feedback
  parse_user_feedback-IsSafe lib fields h =
      let extra = extra_keys feedback_keys fields in
      IsSafe-refuse_keys lib (denied_keys extra) extra
        (feedback_of lib fields (get_field "feedback_type" fields))
        (IsSafe-feedback_of lib fields (get_field "feedback_type" fields) h)
