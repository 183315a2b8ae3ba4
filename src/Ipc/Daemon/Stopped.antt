-- ===== src/Ipc/Daemon/Stopped.antt =====
-- A daemon that shuts down stays so.
use mathlib.Core.Bool.{false≢true}
use market_sentinel.Base.{ℕ, String, ◌≡◌, ap, sym, ◌∙◌, ◌⊎◌, inl, inr, Bool, true, false, List}
use market_sentinel.Base.Eq.{string_eq}
use market_sentinel.Base.Float.{Float}
use market_sentinel.Priority.{Formats}
use market_sentinel.Session.{Platform}
use market_sentinel.Ipc.Json.{Json}
use market_sentinel.Ipc.Codec.{DaemonPhase, HostCommand}
use market_sentinel.Ipc.Daemon.{MarketDaemon}
use market_sentinel.Ipc.Daemon.Phases.{phase_after, Untouched, Untouched-refl, Untouched-trans}
use market_sentinel.Ipc.Daemon.Interleaving.{
  read_line-Moved, Step, received, ticked, Reach, here, next, tick_turn-phase, tick_turn-Untouched,
}

abbrev is_running : DaemonPhase → Bool
is_running DaemonPhase.running = true
is_running _ = false

stays_stopped :
    (p q : DaemonPhase)
    → (q ≡ p) ⊎ ((c : HostCommand) × (q ≡ phase_after p c))
    → p ≡ DaemonPhase.shutting_down
    → q ≡ DaemonPhase.shutting_down
stays_stopped p q (inl e) h = e ∙ h
stays_stopped p q (inr (c, e)) h = e ∙ ap (λ r. phase_after r c) h

module _ {F : Type 0} ⦃f : Float F⦄ (uuid : ℕ → String) (fmt : Formats F) (lib : Platform F) where
  Step-stopped :
      {d d' : MarketDaemon F} {out : List (Json F)}
      → Step uuid fmt lib d out d'
      → d.phase ≡ DaemonPhase.shutting_down
      → (d'.phase ≡ DaemonPhase.shutting_down) × Untouched d.engine d'.engine
  Step-stopped {d} {d'} {out} (received around line plain e) h =
      let m = read_line-Moved around line d d' out plain e in
      (stays_stopped d.phase d'.phase m.phase h, m.untouched)
  Step-stopped {d} {d'} {out} (ticked around clock answer e) h = (
    tick_turn-phase uuid fmt lib around clock answer d d' out e ∙ h,
    tick_turn-Untouched uuid fmt lib around clock answer d d' out
        (λ p. false≢true (ap is_running (sym h ∙ p))) e,
  )

  -- Once a daemon shuts down, no line and no turn of the tick loop brings it back or changes the
  -- buffers, the scheduler, the states or the signals. No line makes the JSON library raise or gives a
  -- timestamp that is an integer beyond the floats.
  pub Reach-stopped :
      (first d : MarketDaemon F)
      → Reach uuid fmt lib first d
      → first.phase ≡ DaemonPhase.shutting_down
      → (d.phase ≡ DaemonPhase.shutting_down) × Untouched first.engine d.engine
  Reach-stopped first d here h = (h, Untouched-refl first.engine)
  Reach-stopped first d' (next {d} r s) h =
      let (stopped, u) = Reach-stopped first d r h in
      let (still, w) = Step-stopped s stopped in
      (still, Untouched-trans first.engine d.engine d'.engine u w)
