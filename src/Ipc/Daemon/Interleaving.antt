-- ===== src/Ipc/Daemon/Interleaving.antt =====
-- The two loops, in any order of their turns: a line is read, or the tick loop takes a turn.
use mathlib.Core.Bool.{false≢true}
use mathlib.Core.Option.{some-injective}
use market_sentinel.Base.{
  ℕ, String, ◌≡◌, refl, ap, sym, subst, ◌∙◌, ◌⊎◌, inl, inr, Bool, true, false, Option, none, some,
  List, [], ◌∷◌, arith, Bool-cases, is_some,
}
use market_sentinel.Base.Eq.{string_eq, ◌==◌}
use market_sentinel.Base.Float.{Float}
use market_sentinel.Priority.{Formats}
use market_sentinel.Session.{Platform}
use market_sentinel.Runtime.{Clock, Answer, MarketEngine, EngineTickResult}
use market_sentinel.Runtime.Process.{tick}
use market_sentinel.Ipc.Json.{Json}
use market_sentinel.Ipc.Codec.{
  DaemonPhase, HostCommand, Decoded, blank, refused, command, escaped, decode_line,
}
use market_sentinel.Ipc.Daemon.{
  MarketDaemon, Surroundings, Reply, shutdown_sync, dispatch_line, read_line, state_message,
  emit_tick, emitted, tick_turn,
}
use market_sentinel.Ipc.Daemon.Phases.{
  phase_after, Untouched, Untouched-refl, Untouched-trans, Answered,
}
use market_sentinel.Ipc.Daemon.Replies.{
  IsPlain, request_of, ReceivedAs, Received, dispatch_line-Received,
}

phase_after-shutdown :
    (p : DaemonPhase) → DaemonPhase.shutting_down ≡ phase_after p HostCommand.shutdown
phase_after-shutdown p = ground arith

-- neither started nor stopped
abbrev pub is_idle : DaemonPhase → Bool
is_idle DaemonPhase.awaiting_hello = true
is_idle DaemonPhase.ready = true
is_idle _ = false

idle_back :
    (p : DaemonPhase) (c : HostCommand) → is_idle (phase_after p c) ≡ true → is_idle p ≡ true
idle_back p c h = ground arith

idle_before :
    (p q : DaemonPhase)
    → (q ≡ p) ⊎ ((c : HostCommand) × (q ≡ phase_after p c))
    → is_idle q ≡ true
    → is_idle p ≡ true
idle_before p q (inl e) h = ap is_idle (sym e) ∙ h
idle_before p q (inr (c, e)) h = idle_back p c (ap is_idle (sym e) ∙ h)

module _ {F : Type 0} ⦃f : Float F⦄ where
  -- what one line does: a command's move of the phase, or none, and no change of the market data
  pub record Moved (d d' : MarketDaemon F) : Type 0 where
    pub phase : (d'.phase ≡ d.phase) ⊎ ((c : HostCommand) × (d'.phase ≡ phase_after d.phase c))
    pub untouched : Untouched d.engine d'.engine

  Moved-same : (d d' : MarketDaemon F) → d ≡ d' → Moved d d'
  Moved-same d d' h =
      subst (Moved d) h (record { phase = inl refl; untouched = Untouched-refl d.engine })

  Moved-Answered :
      (request_id : String) (c : HostCommand) (d d' : MarketDaemon F) (out : List (Json F))
      → Answered request_id (phase_after d.phase c) d (some (out, d'))
      → Moved d d'
  Moved-Answered request_id c d d' [] h = absurd h
  Moved-Answered request_id c d d' (m ∷ []) (named, p, u) = record {
    phase = inr (c, p);
    untouched = u;
  }
  Moved-Answered request_id c d d' (m ∷ (n ∷ ms)) h = absurd h

  -- the daemon of an answer that is known
  pub second : (r q : Reply F) → some r ≡ some q → r.1 ≡ q.1
  second r q h = ap (λ (x : Reply F). x.1) (some-injective _ _ h)

  Moved-ReceivedAs :
      (r : Option (HostCommand × String)) (d d' : MarketDaemon F) (out : List (Json F))
      (o : Option (Reply F))
      → ReceivedAs r d o
      → o ≡ some (out, d')
      → Moved d d'
  Moved-ReceivedAs none d d' out o (m, e) h =
      Moved-same d d' (second (m ∷ [], d) (out, d') (sym e ∙ h))
  Moved-ReceivedAs (some (c, request_id)) d d' out o a h =
      Moved-Answered request_id c d d' out
        (subst (Answered request_id (phase_after d.phase c) d) h a)

  Moved-Received :
      (line : Decoded F) (d d' : MarketDaemon F) (out : List (Json F)) (o : Option (Reply F))
      → Received line d o
      → o ≡ some (out, d')
      → Moved d d'
  Moved-Received blank d d' out o r h = Moved-same d d' (second ([], d) (out, d') (sym r ∙ h))
  Moved-Received (refused m) d d' out o r h = Moved-ReceivedAs none d d' out o r h
  Moved-Received escaped d d' out o r h = Moved-ReceivedAs none d d' out o r h
  Moved-Received (command message_type fields) d d' out o r h =
      Moved-ReceivedAs (request_of (command message_type fields)) d d' out o r h

  pub read_line-Moved :
      (around : Surroundings F) (line : String) (d d' : MarketDaemon F) (out : List (Json F))
      → IsPlain (decode_line around.json line)
      → read_line around line d ≡ some (out, d')
      → Moved d d'
  unfolding read_line shutdown_sync
  read_line-Moved around line d d' out plain h = elim (Bool-cases (line == "")) [
    | inl e ↦
        subst (Moved d) (second (shutdown_sync none d) (out, d') (rw (e, read_line) at h)) (record {
          phase = inr (HostCommand.shutdown, phase_after-shutdown d.phase);
          untouched = Untouched-refl d.engine;
        })
    | inr e ↦
        Moved-Received (decode_line around.json line) d d' out (dispatch_line around line d)
          (dispatch_line-Received around line d plain) (rw (e, read_line) at h)
  ]

module _ {F : Type 0} ⦃f : Float F⦄ (uuid : ℕ → String) (fmt : Formats F) (lib : Platform F) where
  -- one turn of either loop, with whatever stands around the daemon then
  pub data Step : MarketDaemon F → List (Json F) → MarketDaemon F → Type 0 where
    received :
        {d d' : MarketDaemon F} {out : List (Json F)} (around : Surroundings F) (line : String)
        → IsPlain (decode_line around.json line)
        → read_line around line d ≡ some (out, d')
        → Step d out d'
    ticked :
        {d d' : MarketDaemon F} {out : List (Json F)} (around : Surroundings F) (clock : Clock F)
        (answer : Answer F)
        → tick_turn uuid fmt lib around clock answer d ≡ some (out, d')
        → Step d out d'

  -- the daemons that any turns lead to
  pub data Reach (first : MarketDaemon F) : MarketDaemon F → Type 0 where
    here : Reach first first
    next :
        {d d' : MarketDaemon F} {out : List (Json F)}
        → Reach first d
        → Step d out d'
        → Reach first d'

  -- a turn of the tick loop that is not in the phase RUNNING does nothing
  pub tick_turn_idle :
      (around : Surroundings F) (clock : Clock F) (answer : Answer F) (d : MarketDaemon F)
      → (p : DaemonPhase) → d.phase ≡ p
      → (p ≡ DaemonPhase.running) ⊎ (tick_turn uuid fmt lib around clock answer d ≡ some ([], d))
  unfolding tick_turn
  tick_turn_idle around clock answer d DaemonPhase.awaiting_hello e = inr (simp (e, tick_turn))
  tick_turn_idle around clock answer d DaemonPhase.ready e = inr (simp (e, tick_turn))
  tick_turn_idle around clock answer d DaemonPhase.running e = inl refl
  tick_turn_idle around clock answer d DaemonPhase.paused e = inr (simp (e, tick_turn))
  tick_turn_idle around clock answer d DaemonPhase.shutting_down e = inr (simp (e, tick_turn))

  pub emit_tick-phase :
      (around : Surroundings F) (o : Option (EngineTickResult F × MarketEngine F))
      (d d' : MarketDaemon F) (out : List (Json F))
      → emitted around o d ≡ some (out, d')
      → d'.phase ≡ d.phase
  unfolding emit_tick state_message
  emit_tick-phase around none d d' out h = absurd (false≢true (ap is_some h))
  emit_tick-phase around (some (result, e)) d d' out h =
      ap (λ (x : MarketDaemon F). x.phase)
        (sym (second (emit_tick around result (record d { engine = e })) (out, d') h))

  pub tick_turn-running :
      (around : Surroundings F) (clock : Clock F) (answer : Answer F) (d : MarketDaemon F)
      → d.phase ≡ DaemonPhase.running
      → tick_turn uuid fmt lib around clock answer d
        ≡ emitted around (tick uuid fmt lib clock answer d.engine) d
  unfolding tick_turn
  tick_turn-running around clock answer d e = simp (e, tick_turn)

  pub tick_turn-phase :
      (around : Surroundings F) (clock : Clock F) (answer : Answer F) (d d' : MarketDaemon F)
      (out : List (Json F))
      → tick_turn uuid fmt lib around clock answer d ≡ some (out, d')
      → d'.phase ≡ d.phase
  tick_turn-phase around clock answer d d' out h =
      elim (tick_turn_idle around clock answer d d.phase refl) [
        | inl p ↦
            emit_tick-phase around (tick uuid fmt lib clock answer d.engine) d d' out
              (sym (tick_turn-running around clock answer d p) ∙ h)
        | inr e ↦ ap (λ (x : MarketDaemon F). x.phase) (sym (second ([], d) (out, d') (sym e ∙ h)))
      ]

  -- a turn of the tick loop in another phase than RUNNING
  pub tick_turn-Untouched :
      (around : Surroundings F) (clock : Clock F) (answer : Answer F) (d d' : MarketDaemon F)
      (out : List (Json F))
      → ¬ (d.phase ≡ DaemonPhase.running)
      → tick_turn uuid fmt lib around clock answer d ≡ some (out, d')
      → Untouched d.engine d'.engine
  tick_turn-Untouched around clock answer d d' out n h =
      elim (tick_turn_idle around clock answer d d.phase refl) [
        | inl p ↦ absurd (n p)
        | inr e ↦
            subst (λ (x : MarketDaemon F). Untouched d.engine x.engine)
              (second ([], d) (out, d') (sym e ∙ h)) (Untouched-refl d.engine)
      ]

  Step-idle :
      {d d' : MarketDaemon F} {out : List (Json F)}
      → Step d out d'
      → is_idle d'.phase ≡ true
      → (is_idle d.phase ≡ true) × Untouched d.engine d'.engine
  Step-idle {d} {d'} {out} (received around line plain e) h =
      let m = read_line-Moved around line d d' out plain e in
      (idle_before d.phase d'.phase m.phase h, m.untouched)
  Step-idle {d} {d'} {out} (ticked around clock answer e) h =
      let same = tick_turn-phase around clock answer d d' out e in
      let idle : is_idle d.phase ≡ true = ap is_idle (sym same) ∙ h in
      (
        idle,
        tick_turn-Untouched around clock answer d d' out
            (λ p. false≢true (ap is_idle (sym p) ∙ idle)) e,
      )

  -- Before a host has started the daemon, that is while it waits for the hello or is ready, whatever
  -- lines came in and however often the tick loop took its turn, the buffers, the scheduler, the states
  -- and the signals are those that it was made with: nothing is fetched and nothing is detected. No line
  -- makes the JSON library raise or gives a timestamp that is an integer beyond the floats.
  pub Reach-idle :
      (first d : MarketDaemon F)
      → Reach first d
      → is_idle d.phase ≡ true
      → Untouched first.engine d.engine
  Reach-idle first d here h = Untouched-refl first.engine
  Reach-idle first d' (next {d} r s) h =
      let (idle, u) = Step-idle s h in
      Untouched-trans first.engine d.engine d'.engine (Reach-idle first d r idle) u
