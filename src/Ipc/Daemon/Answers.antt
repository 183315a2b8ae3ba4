-- ===== src/Ipc/Daemon/Answers.antt =====
-- What each handler answers, wherever it is reached.
use market_sentinel.Base.{◌≢◌, String, refl, inl, inr, Option, some, List, [], ◌∷◌, Bool-cases}
use market_sentinel.Base.Eq.{string_eq}
use market_sentinel.Base.Float.{Float}
use market_sentinel.Watchlist
use market_sentinel.Watchlist.{
  Watchlist, broken, written, Outcome, ok, raised, full, unknown, duplicate,
}
use market_sentinel.Watchlist.Limit
use market_sentinel.Watchlist.Replace.{replace-not_broken}
use market_sentinel.Runtime.{MarketEngine}
use market_sentinel.Ipc.Json.{text}
use market_sentinel.Ipc.Codec.{DaemonPhase, ErrorCode}
use market_sentinel.Ipc.HostInteraction.{Parsed, fact, invalid, raises, HostInteractionFact}
use market_sentinel.Ipc.UserFeedback.{UserFeedbackFact}
use market_sentinel.Ipc.Mapping.{map_engine_state}
use market_sentinel.Ipc.Daemon.{
  MarketDaemon, Surroundings, Reply, version, ItemsParsed, items, bad, send_error, send_ack,
  in_phase, greeted, shutdown_sync, hello, replaced, set_parsed, state_message, interacted,
  fed_back,
}
use market_sentinel.Ipc.Daemon.Raising.{IsSafe}
use market_sentinel.Ipc.Daemon.Phases.{
  Untouched, Untouched-refl, Answered, reply_id-encode_message, send_error-Answered,
  send_ack-Answered,
}

module _ {F : Type 0} ⦃f : Float F⦄ (around : Surroundings F) where
  -- the daemon of its parts, so that a proof can split on the phase
  abbrev pub daemon :
      MarketEngine F
      → List (HostInteractionFact F)
      → List (UserFeedbackFact F)
      → DaemonPhase
      → MarketDaemon F
  daemon e interactions feedback p = record {
    engine = e;
    phase = p;
    interactions = interactions;
    feedback = feedback;
  }

  module _ (request_id : String) (e : MarketEngine F) (is : List (HostInteractionFact F))
      (fs : List (UserFeedbackFact F)) where
    -- one answer, and the phase after it, where the phase was `p`
    abbrev pub AnsweredIn : DaemonPhase → DaemonPhase → Option (Reply F) → Type 0
    AnsweredIn p q o = Answered request_id q (daemon e is fs p) o

    pub refused_in :
        (code : ErrorCode) (message : String) (p : DaemonPhase)
        → AnsweredIn p p (some (send_error code message (some request_id) (daemon e is fs p)))
    refused_in code message p =
        send_error-Answered code message request_id (daemon e is fs p) (daemon e is fs p)
          (Untouched-refl e)

    pub acked_in :
        (p q : DaemonPhase)
        → AnsweredIn p q (some (send_ack request_id (in_phase q (daemon e is fs p))))
    acked_in p q =
        send_ack-Answered request_id (daemon e is fs p) (daemon e is fs q) (Untouched-refl e)

    pub hello-Answered :
        (p : DaemonPhase)
        → AnsweredIn p (greeted p) (some (hello around request_id (daemon e is fs p)))
    unfolding hello
    hello-Answered p = (
      reply_id-encode_message "ready" request_id (("core_version", text version) ∷ []),
      refl,
      Untouched-refl e,
    )

    pub shutdown_sync-Answered :
        (p : DaemonPhase)
        → AnsweredIn p DaemonPhase.shutting_down
            (some (shutdown_sync (some request_id) (daemon e is fs p)))
    unfolding shutdown_sync
    shutdown_sync-Answered p =
        (reply_id-encode_message "shutdown_ack" request_id [], refl, Untouched-refl e)

    pub state_message-Answered :
        (p : DaemonPhase)
        → AnsweredIn p p (some (state_message around (some request_id) (daemon e is fs p)))
    unfolding state_message map_engine_state
    state_message-Answered p = (
      reply_id-encode_message "state" request_id (("state", _) ∷ []),
      refl,
      record {
        buffers = refl;
        scheduler = refl;
        states = refl;
        pipeline = refl;
        watchlist = λ v. v;
      },
    )

    pub interacted-Answered :
        (p : DaemonPhase) (parsed : Parsed (HostInteractionFact F))
        → IsSafe parsed
        → AnsweredIn p p (interacted around request_id parsed (daemon e is fs p))
    interacted-Answered p raises h = h
    interacted-Answered p (invalid reason) h = refused_in ErrorCode.invalid_payload reason p
    interacted-Answered p (fact parsed) h =
        send_ack-Answered request_id (daemon e is fs p) (daemon e (parsed ∷ is) fs p)
          (Untouched-refl e)

    pub fed_back-Answered :
        (p : DaemonPhase) (parsed : Parsed (UserFeedbackFact F))
        → IsSafe parsed
        → AnsweredIn p p (fed_back around request_id parsed (daemon e is fs p))
    fed_back-Answered p raises h = h
    fed_back-Answered p (invalid reason) h = refused_in ErrorCode.invalid_payload reason p
    fed_back-Answered p (fact parsed) h = elim (Bool-cases (around.refuses parsed)) [
      | inl r ↦ rw r (refused_in ErrorCode.invalid_payload "feedback storage failed" p)
      | inr r ↦ rw r (
          send_ack-Answered request_id (daemon e is fs p) (daemon e is (parsed ∷ fs) p)
            (Untouched-refl e))
    ]

    rewatched :
        (w : Watchlist)
        → (Limit.IsValid e.watchlist → Limit.IsValid w)
        → Untouched e (record e { watchlist = w })
    rewatched w h = record {
      buffers = refl;
      scheduler = refl;
      states = refl;
      pipeline = refl;
      watchlist = h;
    }

    replaced-Answered :
        (p : DaemonPhase) (out : Outcome (Unit {0}) × Watchlist)
        → out.0 ≢ broken
        → (Limit.IsValid e.watchlist → Limit.IsValid out.1)
        → AnsweredIn p p (replaced around request_id out (daemon e is fs p))
    replaced-Answered p (ok u, w) b h = (
      reply_id-encode_message "ack" request_id (("watchlist_count", _) ∷ []),
      refl,
      rewatched w h,
    )
    replaced-Answered p (raised full, w) b h =
        send_error-Answered ErrorCode.watchlist_full (around.error_text full) request_id
          (daemon e is fs p) (daemon (record e { watchlist = w }) is fs p) (rewatched w h)
    replaced-Answered p (raised unknown, w) b h =
        send_error-Answered ErrorCode.duplicate_symbol (around.error_text unknown) request_id
          (daemon e is fs p) (daemon (record e { watchlist = w }) is fs p) (rewatched w h)
    replaced-Answered p (raised duplicate, w) b h =
        send_error-Answered ErrorCode.duplicate_symbol (around.error_text duplicate) request_id
          (daemon e is fs p) (daemon (record e { watchlist = w }) is fs p) (rewatched w h)
    replaced-Answered p (broken, w) b h = absurd (b refl)

    pub set_parsed-Answered :
        (p : DaemonPhase) (parsed : ItemsParsed)
        → AnsweredIn p p (set_parsed around request_id parsed (daemon e is fs p))
    set_parsed-Answered p (bad reason) = refused_in ErrorCode.invalid_payload reason p
    set_parsed-Answered p (items parsed) =
        replaced-Answered p (Watchlist.replace parsed written e.watchlist)
          (replace-not_broken parsed e.watchlist) (Limit.replace-IsValid parsed e.watchlist)
