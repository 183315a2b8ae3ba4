-- ===== src/Ipc/Daemon/Handlers.antt =====
-- What each handler answers, in each phase.
use market_sentinel.Base.{String, ◌≡◌, sym, subst, Option, some, List, arith}
use market_sentinel.Base.Eq.{string_eq}
use market_sentinel.Base.Float.{Float}
use market_sentinel.Runtime.{MarketEngine}
use market_sentinel.Ipc.Json.{Fields, get_field}
use market_sentinel.Ipc.Codec.{DaemonPhase, ErrorCode, HostCommand}
use market_sentinel.Ipc.HostInteraction.{HostInteractionFact, parse_host_interaction}
use market_sentinel.Ipc.UserFeedback.{UserFeedbackFact, parse_user_feedback}
use market_sentinel.Ipc.Daemon.{
  Surroundings, Reply, parse_list, shutdown_sync, set_watchlist, handle, dispatch_in,
}
use market_sentinel.Ipc.Daemon.Raising.{
  IsSmall, parse_host_interaction-IsSafe, parse_user_feedback-IsSafe,
}
use market_sentinel.Ipc.Daemon.Phases.{phase_after}
use market_sentinel.Ipc.Daemon.Answers
use market_sentinel.Ipc.Daemon.Answers.{daemon, AnsweredIn}

module _ {F : Type 0} ⦃f : Float F⦄ (around : Surroundings F) where
  module _ (request_id : String) (e : MarketEngine F) (is : List (HostInteractionFact F))
      (fs : List (UserFeedbackFact F)) where
    -- the handlers, in any phase that is not the last
    start-Answered :
        (p : DaemonPhase) (fields : Fields F)
        → AnsweredIn around request_id e is fs p
            (phase_after p HostCommand.start)
            (dispatch_in around p HostCommand.start request_id fields (daemon around e is fs p))
    unfolding handle
    start-Answered DaemonPhase.awaiting_hello fields =
        Answers.refused_in around request_id e is fs ErrorCode.not_ready "hello is required first"
          DaemonPhase.awaiting_hello
    start-Answered DaemonPhase.ready fields =
        Answers.acked_in around request_id e is fs DaemonPhase.ready DaemonPhase.running
    start-Answered DaemonPhase.running fields =
        Answers.acked_in around request_id e is fs DaemonPhase.running DaemonPhase.running
    start-Answered DaemonPhase.paused fields =
        Answers.refused_in around request_id e is fs ErrorCode.is_paused
          "daemon is paused; send resume" DaemonPhase.paused
    start-Answered DaemonPhase.shutting_down fields =
        Answers.refused_in around request_id e is fs ErrorCode.is_shutting_down
          "daemon is shutting down" DaemonPhase.shutting_down

    pause-Answered :
        (p : DaemonPhase) (fields : Fields F)
        → AnsweredIn around request_id e is fs p
            (phase_after p HostCommand.pause)
            (dispatch_in around p HostCommand.pause request_id fields (daemon around e is fs p))
    unfolding handle
    pause-Answered DaemonPhase.awaiting_hello fields =
        Answers.refused_in around request_id e is fs ErrorCode.not_ready "hello is required first"
          DaemonPhase.awaiting_hello
    pause-Answered DaemonPhase.ready fields =
        Answers.refused_in around request_id e is fs ErrorCode.not_started
          "start is required before pause" DaemonPhase.ready
    pause-Answered DaemonPhase.running fields =
        Answers.acked_in around request_id e is fs DaemonPhase.running DaemonPhase.paused
    pause-Answered DaemonPhase.paused fields =
        Answers.acked_in around request_id e is fs DaemonPhase.paused DaemonPhase.paused
    pause-Answered DaemonPhase.shutting_down fields =
        Answers.refused_in around request_id e is fs ErrorCode.is_shutting_down
          "daemon is shutting down" DaemonPhase.shutting_down

    resume-Answered :
        (p : DaemonPhase) (fields : Fields F)
        → AnsweredIn around request_id e is fs p
            (phase_after p HostCommand.resume)
            (dispatch_in around p HostCommand.resume request_id fields (daemon around e is fs p))
    unfolding handle
    resume-Answered DaemonPhase.awaiting_hello fields =
        Answers.refused_in around request_id e is fs ErrorCode.not_ready "hello is required first"
          DaemonPhase.awaiting_hello
    resume-Answered DaemonPhase.ready fields =
        Answers.refused_in around request_id e is fs ErrorCode.not_started
          "start is required before resume" DaemonPhase.ready
    resume-Answered DaemonPhase.running fields =
        Answers.acked_in around request_id e is fs DaemonPhase.running DaemonPhase.running
    resume-Answered DaemonPhase.paused fields =
        Answers.acked_in around request_id e is fs DaemonPhase.paused DaemonPhase.running
    resume-Answered DaemonPhase.shutting_down fields =
        Answers.refused_in around request_id e is fs ErrorCode.is_shutting_down
          "daemon is shutting down" DaemonPhase.shutting_down

    set_watchlist_ready :
        (p : DaemonPhase) (fields : Fields F)
        → AnsweredIn around request_id e is fs p p
            (set_watchlist around request_id fields (daemon around e is fs p))
    unfolding set_watchlist
    set_watchlist_ready p fields =
        Answers.set_parsed-Answered around request_id e is fs p
          (parse_list (get_field "items" fields))

    set_watchlist-Answered :
        (p : DaemonPhase) (fields : Fields F)
        → AnsweredIn around request_id e is fs p p (
            dispatch_in around p HostCommand.set_watchlist request_id fields
              (daemon around e is fs p))
    unfolding handle
    set_watchlist-Answered DaemonPhase.awaiting_hello fields =
        Answers.refused_in around request_id e is fs ErrorCode.not_ready "hello is required first"
          DaemonPhase.awaiting_hello
    set_watchlist-Answered DaemonPhase.ready fields = set_watchlist_ready DaemonPhase.ready fields
    set_watchlist-Answered DaemonPhase.running fields =
        set_watchlist_ready DaemonPhase.running fields
    set_watchlist-Answered DaemonPhase.paused fields = set_watchlist_ready DaemonPhase.paused fields
    set_watchlist-Answered DaemonPhase.shutting_down fields =
        Answers.refused_in around request_id e is fs ErrorCode.is_shutting_down
          "daemon is shutting down" DaemonPhase.shutting_down

    get_state-Answered :
        (p : DaemonPhase) (fields : Fields F)
        → AnsweredIn around request_id e is fs p p
            (dispatch_in around p HostCommand.get_state request_id fields (daemon around e is fs p))
    unfolding handle
    get_state-Answered DaemonPhase.awaiting_hello fields =
        Answers.refused_in around request_id e is fs ErrorCode.not_ready "hello is required first"
          DaemonPhase.awaiting_hello
    get_state-Answered DaemonPhase.ready fields =
        Answers.state_message-Answered around request_id e is fs DaemonPhase.ready
    get_state-Answered DaemonPhase.running fields =
        Answers.state_message-Answered around request_id e is fs DaemonPhase.running
    get_state-Answered DaemonPhase.paused fields =
        Answers.state_message-Answered around request_id e is fs DaemonPhase.paused
    get_state-Answered DaemonPhase.shutting_down fields =
        Answers.refused_in around request_id e is fs ErrorCode.is_shutting_down
          "daemon is shutting down" DaemonPhase.shutting_down

    host_interaction-Answered :
        (p : DaemonPhase) (fields : Fields F)
        → IsSmall (get_field "created_timestamp" fields)
        → AnsweredIn around request_id e is fs p p (
            dispatch_in around p HostCommand.host_interaction request_id fields
              (daemon around e is fs p))
    unfolding handle
    host_interaction-Answered DaemonPhase.awaiting_hello fields h =
        Answers.refused_in around request_id e is fs ErrorCode.not_ready "hello is required first"
          DaemonPhase.awaiting_hello
    host_interaction-Answered DaemonPhase.ready fields h =
        Answers.interacted-Answered around request_id e is fs DaemonPhase.ready
          (parse_host_interaction around.json fields)
          (parse_host_interaction-IsSafe around.json fields h)
    host_interaction-Answered DaemonPhase.running fields h =
        Answers.interacted-Answered around request_id e is fs DaemonPhase.running
          (parse_host_interaction around.json fields)
          (parse_host_interaction-IsSafe around.json fields h)
    host_interaction-Answered DaemonPhase.paused fields h =
        Answers.interacted-Answered around request_id e is fs DaemonPhase.paused
          (parse_host_interaction around.json fields)
          (parse_host_interaction-IsSafe around.json fields h)
    host_interaction-Answered DaemonPhase.shutting_down fields h =
        Answers.refused_in around request_id e is fs ErrorCode.is_shutting_down
          "daemon is shutting down" DaemonPhase.shutting_down

    user_feedback-Answered :
        (p : DaemonPhase) (fields : Fields F)
        → IsSmall (get_field "created_timestamp" fields)
        → AnsweredIn around request_id e is fs p p (
            dispatch_in around p HostCommand.user_feedback request_id fields
              (daemon around e is fs p))
    unfolding handle
    user_feedback-Answered DaemonPhase.awaiting_hello fields h =
        Answers.refused_in around request_id e is fs ErrorCode.not_ready "hello is required first"
          DaemonPhase.awaiting_hello
    user_feedback-Answered DaemonPhase.ready fields h =
        Answers.fed_back-Answered around request_id e is fs DaemonPhase.ready
          (parse_user_feedback around.json fields) (parse_user_feedback-IsSafe around.json fields h)
    user_feedback-Answered DaemonPhase.running fields h =
        Answers.fed_back-Answered around request_id e is fs DaemonPhase.running
          (parse_user_feedback around.json fields) (parse_user_feedback-IsSafe around.json fields h)
    user_feedback-Answered DaemonPhase.paused fields h =
        Answers.fed_back-Answered around request_id e is fs DaemonPhase.paused
          (parse_user_feedback around.json fields) (parse_user_feedback-IsSafe around.json fields h)
    user_feedback-Answered DaemonPhase.shutting_down fields h =
        Answers.refused_in around request_id e is fs ErrorCode.is_shutting_down
          "daemon is shutting down" DaemonPhase.shutting_down

    greeting-Answered :
        (p : DaemonPhase) (fields : Fields F)
        → AnsweredIn around request_id e is fs p
            (phase_after p HostCommand.hello)
            (dispatch_in around p HostCommand.hello request_id fields (daemon around e is fs p))
    unfolding handle
    greeting-Answered DaemonPhase.awaiting_hello fields =
        Answers.hello-Answered around request_id e is fs DaemonPhase.awaiting_hello
    greeting-Answered DaemonPhase.ready fields =
        Answers.hello-Answered around request_id e is fs DaemonPhase.ready
    greeting-Answered DaemonPhase.running fields =
        Answers.hello-Answered around request_id e is fs DaemonPhase.running
    greeting-Answered DaemonPhase.paused fields =
        Answers.hello-Answered around request_id e is fs DaemonPhase.paused
    greeting-Answered DaemonPhase.shutting_down fields =
        Answers.refused_in around request_id e is fs ErrorCode.is_shutting_down
          "daemon is shutting down" DaemonPhase.shutting_down

    phase_kept :
        (c : HostCommand) (p : DaemonPhase) (o : Option (Reply F))
        → phase_after p c ≡ p
        → AnsweredIn around request_id e is fs p p o
        → AnsweredIn around request_id e is fs p (phase_after p c) o
    phase_kept c p o h a = subst (λ q. AnsweredIn around request_id e is fs p q o) (sym h) a

    pub dispatch_in-Answered :
        (p : DaemonPhase) (c : HostCommand) (fields : Fields F)
        → IsSmall (get_field "created_timestamp" fields)
        → AnsweredIn around request_id e is fs p
            (phase_after p c)
            (dispatch_in around p c request_id fields (daemon around e is fs p))
    dispatch_in-Answered p HostCommand.hello fields h = greeting-Answered p fields
    dispatch_in-Answered p HostCommand.start fields h = start-Answered p fields
    dispatch_in-Answered p HostCommand.pause fields h = pause-Answered p fields
    dispatch_in-Answered p HostCommand.resume fields h = resume-Answered p fields
    dispatch_in-Answered p HostCommand.set_watchlist fields h =
        phase_kept HostCommand.set_watchlist p _ (ground arith) (set_watchlist-Answered p fields)
    dispatch_in-Answered p HostCommand.get_state fields h =
        phase_kept HostCommand.get_state p _ (ground arith) (get_state-Answered p fields)
    dispatch_in-Answered p HostCommand.host_interaction fields h =
        phase_kept HostCommand.host_interaction p _ (ground arith)
          (host_interaction-Answered p fields h)
    dispatch_in-Answered p HostCommand.user_feedback fields h =
        phase_kept HostCommand.user_feedback p _ (ground arith) (user_feedback-Answered p fields h)
    dispatch_in-Answered p HostCommand.shutdown fields h =
        subst
          (λ q.
            AnsweredIn around request_id e is fs p q
              (some (shutdown_sync (some request_id) (daemon around e is fs p))))
          (ground arith) (Answers.shutdown_sync-Answered around request_id e is fs p)
