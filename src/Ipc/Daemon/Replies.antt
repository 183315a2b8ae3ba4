-- ===== src/Ipc/Daemon/Replies.antt =====
-- Each line is answered once, to the request it made, and moves the phase as the table says.
use market_sentinel.Base.{
  String, ◌≡◌, refl, inl, inr, Option, none, some, [], ◌∷◌, if◌then◌else◌, Bool-cases,
}
use market_sentinel.Base.Eq.{string_eq, ◌==◌}
use market_sentinel.Base.Float.{Float}
use market_sentinel.Ipc.Json.{Json, Fields, get_field, string_of}
use market_sentinel.Ipc.Codec.{
  HostCommand, command_of, Decoded, blank, refused, command, escaped, decode_line,
}
use market_sentinel.Ipc.Daemon.{
  MarketDaemon, Surroundings, Reply, send_error, dispatch_identified, dispatch_known,
  dispatch_decoded, dispatch_line,
}
use market_sentinel.Ipc.Daemon.Raising.{IsSmall}
use market_sentinel.Ipc.Daemon.Phases.{phase_after, Answered}
use market_sentinel.Ipc.Daemon.Handlers.{dispatch_in-Answered}

-- a command that names itself
abbrev identified : HostCommand → Option String → Option (HostCommand × String)
identified c none = none
identified c (some request_id) = if request_id == "" then none else some (c, request_id)

abbrev request_known : Option HostCommand → Option String → Option (HostCommand × String)
request_known none o = none
request_known (some c) o = identified c o

module _ {F : Type 0} where
  -- a line that does not make the JSON library or `float` raise
  abbrev pub IsPlain : Decoded F → Type 0
  IsPlain escaped = ⊥
  IsPlain (command message_type fields) = IsSmall (get_field "created_timestamp" fields)
  IsPlain _ = Unit

  -- the request that a command makes: its type is known and it names itself
  abbrev pub request_of : Decoded F → Option (HostCommand × String)
  request_of (command message_type fields) =
      request_known (command_of message_type) (string_of (get_field "request_id" fields))
  request_of _ = none

  -- one message, and nothing else
  abbrev pub Refused : MarketDaemon F → Option (Reply F) → Type 0
  Refused d o = (m : Json F) × (o ≡ some (m ∷ [], d))

  abbrev pub ReceivedAs : Option (HostCommand × String) → MarketDaemon F → Option (Reply F) → Type 0
  ReceivedAs none d o = Refused d o
  ReceivedAs (some (c, request_id)) d o = Answered request_id (phase_after d.phase c) d o

  -- what becomes of a line
  abbrev pub Received : Decoded F → MarketDaemon F → Option (Reply F) → Type 0
  Received blank d o = o ≡ some ([], d)
  Received line d o = ReceivedAs (request_of line) d o

module _ {F : Type 0} ⦃f : Float F⦄ (around : Surroundings F) where
  dispatch_identified-Received :
      (c : HostCommand) (o : Option String) (fields : Fields F) (d : MarketDaemon F)
      → IsSmall (get_field "created_timestamp" fields)
      → ReceivedAs (identified c o) d (dispatch_identified around c o fields d)
  unfolding send_error
  dispatch_identified-Received c none fields d h = (_, refl)
  dispatch_identified-Received c (some request_id) fields d h =
      elim (Bool-cases (request_id == "")) [
        | inl r ↦ rw (r, ReceivedAs) (_, refl)
        | inr r ↦
            rw (r, ReceivedAs)
              (dispatch_in-Answered around request_id d.engine d.interactions d.feedback d.phase c
                fields h)
      ]

  dispatch_known-Received :
      (o : Option HostCommand) (message_type : String) (fields : Fields F) (d : MarketDaemon F)
      → IsSmall (get_field "created_timestamp" fields)
      → ReceivedAs
          (request_known o (string_of (get_field "request_id" fields)))
          d
          (dispatch_known around o message_type fields d)
  unfolding send_error
  dispatch_known-Received none message_type fields d h = (_, refl)
  dispatch_known-Received (some c) message_type fields d h =
      dispatch_identified-Received c (string_of (get_field "request_id" fields)) fields d h

  dispatch_decoded-Received :
      (line : Decoded F) (d : MarketDaemon F)
      → IsPlain line
      → Received line d (dispatch_decoded around line d)
  dispatch_decoded-Received blank d h = refl
  dispatch_decoded-Received (refused m) d h = (m, refl)
  dispatch_decoded-Received escaped d h = absurd h
  dispatch_decoded-Received (command message_type fields) d h =
      dispatch_known-Received (command_of message_type) message_type fields d h

  -- Every line is dealt with, unless it makes the JSON library raise or gives a timestamp that is an
  -- integer beyond the floats. A blank one gets no answer. A request (a known type, with an identifier)
  -- gets just one answer, which names the request; the phase moves as the table of the protocol says,
  -- and the buffers, the scheduler, the states and the signals are left alone, as is the
  -- well-formedness of the watchlist. Any other line gets one message, and changes nothing.
  pub dispatch_line-Received :
      (line : String) (d : MarketDaemon F)
      → IsPlain (decode_line around.json line)
      → Received (decode_line around.json line) d (dispatch_line around line d)
  unfolding dispatch_line
  dispatch_line-Received line d h = dispatch_decoded-Received (decode_line around.json line) d h
