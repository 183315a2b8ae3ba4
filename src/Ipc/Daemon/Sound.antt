-- ===== src/Ipc/Daemon/Sound.antt =====
-- The engine and the watchlist behind the daemon, through the turns of both loops.
use market_sentinel.Base.{
  ℕ, String, ◌≡◌, refl, ap, sym, subst, ◌∙◌, inl, inr, Option, none, some, List, [], ◌∷◌,
  Bool-cases,
}
use market_sentinel.Base.Eq.{string_eq, ◌==◌}
use market_sentinel.Base.Float.{Float, IsOrdered, IsMonotone}
use market_sentinel.Watchlist.Limit
use market_sentinel.Priority.{Formats}
use market_sentinel.Session.{Platform}
use market_sentinel.Runtime.{Clock, Answer, MarketEngine, EngineTickResult}
use market_sentinel.Runtime.Valid.{IsValid}
use market_sentinel.Runtime.Ticked.{tick-Ticked}
use market_sentinel.Ipc.Json.{Json}
use market_sentinel.Ipc.Codec.{
  DaemonPhase, HostCommand, Decoded, blank, refused, command, escaped, decode_line,
}
use market_sentinel.Ipc.Mapping.{map_engine_state}
use market_sentinel.Ipc.Daemon.{
  MarketDaemon, Surroundings, Reply, shutdown_sync, dispatch_line, read_line, state_message,
  emit_tick, emitted, tick_turn,
}
use market_sentinel.Ipc.Daemon.Phases.{phase_after, Untouched, Answered}
use market_sentinel.Ipc.Daemon.Replies.{
  IsPlain, request_of, ReceivedAs, Received, dispatch_line-Received,
}
use market_sentinel.Ipc.Daemon.Interleaving.{
  second, read_line-Moved, Step, received, ticked, Reach, here, next, tick_turn_idle,
  tick_turn-running,
}

module _ {F : Type 0} ⦃f : Float F⦄ where
  -- the engine and its watchlist are well-formed
  pub record IsSound (uuid : ℕ → String) (e : MarketEngine F) : Type 0 where
    pub engine : IsValid uuid e
    pub watchlist : Limit.IsValid e.watchlist

  IsSound-Untouched :
      (uuid : ℕ → String) (e e' : MarketEngine F)
      → Untouched e e'
      → IsSound uuid e
      → IsSound uuid e'
  IsSound-Untouched uuid e e' u v = record {
    engine = record {
      buffers = rw u.buffers v.engine.buffers;
      composer = rw u.pipeline v.engine.composer;
    };
    watchlist = u.watchlist v.watchlist;
  }

  emit_tick-Untouched :
      (around : Surroundings F) (result : EngineTickResult F) (d : MarketDaemon F)
      → Untouched d.engine (emit_tick around result d).1.engine
  unfolding emit_tick state_message map_engine_state
  emit_tick-Untouched around result d = record {
    buffers = refl;
    scheduler = refl;
    states = refl;
    pipeline = refl;
    watchlist = λ v. v;
  }

  Answered-some :
      (request_id : String) (p : DaemonPhase) (d : MarketDaemon F) (o : Option (Reply F))
      → Answered request_id p d o
      → (r : Reply F) × (o ≡ some r)
  Answered-some request_id p d none h = absurd h
  Answered-some request_id p d (some r) h = (r, refl)

  Received-some :
      (r : Option (HostCommand × String)) (d : MarketDaemon F) (o : Option (Reply F))
      → ReceivedAs r d o
      → (r : Reply F) × (o ≡ some r)
  Received-some none d o (m, e) = ((m ∷ [], d), e)
  Received-some (some (c, request_id)) d o a =
      Answered-some request_id (phase_after d.phase c) d o a

  line_some :
      (line : Decoded F) (d : MarketDaemon F) (o : Option (Reply F))
      → Received line d o
      → (r : Reply F) × (o ≡ some r)
  line_some blank d o e = (([], d), e)
  line_some (refused m) d o h = Received-some none d o h
  line_some escaped d o h = Received-some none d o h
  line_some (command message_type fields) d o h =
      Received-some (request_of (command message_type fields)) d o h

  read_line-some :
      (around : Surroundings F) (line : String) (d : MarketDaemon F)
      → IsPlain (decode_line around.json line)
      → (r : Reply F) × (read_line around line d ≡ some r)
  unfolding read_line
  read_line-some around line d plain = elim (Bool-cases (line == "")) [
    | inl e ↦ (shutdown_sync none d, rw (e, read_line) refl)
    | inr e ↦
        let (r, h) =
          line_some (decode_line around.json line) d (dispatch_line around line d)
            (dispatch_line-Received around line d plain) in
        (r, rw (e, read_line) h)
  ]

module _ {F : Type 0} ⦃f : Float F⦄ (uuid : ℕ → String)
    (unique : (i j : ℕ) → uuid i ≡ uuid j → i ≡ j) (fmt : Formats F) (lib : Platform F)
    (laws : IsOrdered F) (mono : IsMonotone F) where
  -- a turn of the tick loop, where the engine is sound
  tick_turn-IsSound :
      (around : Surroundings F) (clock : Clock F) (answer : Answer F) (d : MarketDaemon F)
      → IsSound uuid d.engine
      → (r : Reply F) × (tick_turn uuid fmt lib around clock answer d ≡ some r)
        × IsSound uuid r.1.engine
  tick_turn-IsSound around clock answer d v =
      elim (tick_turn_idle uuid fmt lib around clock answer d d.phase refl) [
        | inr e ↦ (([], d), e, v)
        | inl p ↦
            let (result, e, h, t) =
              tick-Ticked uuid unique fmt lib clock laws mono answer d.engine v.engine in
            let after : MarketDaemon F = record d { engine = e } in
            let sound : IsSound uuid e = record {
              engine = t.valid;
              watchlist = rw t.same_watchlist v.watchlist;
            } in
            (
              emit_tick around result after,
              tick_turn-running uuid fmt lib around clock answer d p
                  ∙ ap (λ o. emitted around o d) h,
              IsSound-Untouched uuid e (emit_tick around result after).1.engine
                  (emit_tick-Untouched around result after) sound,
            )
      ]

  Step-IsSound :
      {d d' : MarketDaemon F} {out : List (Json F)}
      → Step uuid fmt lib d out d'
      → IsSound uuid d.engine
      → IsSound uuid d'.engine
  Step-IsSound {d} {d'} {out} (received around line plain e) v =
      IsSound-Untouched uuid d.engine d'.engine
        (read_line-Moved around line d d' out plain e).untouched v
  Step-IsSound {d} {d'} {out} (ticked around clock answer e) v =
      let (r, h, w) = tick_turn-IsSound around clock answer d v in
      subst (λ (x : MarketDaemon F). IsSound uuid x.engine) (second r (out, d') (sym h ∙ e)) w

  Reach-IsSound :
      (first d : MarketDaemon F)
      → Reach uuid fmt lib first d
      → IsSound uuid first.engine
      → IsSound uuid d.engine
  Reach-IsSound first d here v = v
  Reach-IsSound first d' (next {d} r s) v = Step-IsSound s (Reach-IsSound first d r v)

  -- Whatever lines and turns of the tick loop came before, in any order, a daemon that was made with a
  -- well-formed engine and watchlist still has them, and can go on: the next turn of the tick loop does
  -- not raise, whatever the provider answers and the clocks read, and leaves a well-formed engine; nor
  -- does the next line. No line makes the JSON library raise or gives a timestamp that is an integer
  -- beyond the floats; times are ordered, and identifiers do not repeat.
  pub Reach-goes_on :
      (first d : MarketDaemon F)
      → Reach uuid fmt lib first d
      → IsSound uuid first.engine
      → IsSound uuid d.engine
        × ((around : Surroundings F) (clock : Clock F) (answer : Answer F)
            → (r : Reply F) × (tick_turn uuid fmt lib around clock answer d ≡ some r)
              × IsSound uuid r.1.engine)
        × ((around : Surroundings F) (line : String)
            → IsPlain (decode_line around.json line)
            → (r : Reply F) × (read_line around line d ≡ some r))
  Reach-goes_on first d r v =
      let w = Reach-IsSound first d r v in
      (
        w,
        λ around clock answer. tick_turn-IsSound around clock answer d w,
        λ around line plain. read_line-some around line d plain,
      )
