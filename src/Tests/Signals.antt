-- ===== src/Tests/Signals.antt =====
-- Tests of the deduper, the cooldown and the episodes.
use mathlib.Core.List.{Perm}
use market_sentinel.Base.{◌≡◌, refl, some, List, [], ◌∷◌, All}
use market_sentinel.Base.Eq.{string_eq}
use market_sentinel.Base.Dict.{get, set}
use market_sentinel.Base.Float.{Micro, Micro-IsOrdered, micro_float, num}
use market_sentinel.Domain.{EventType, EventDirection, SignalPriority, MarketEvent}
use market_sentinel.Gate.{Chain, of_key}
use market_sentinel.Dedupe.{EventDeduper, accept, accept_all}
use market_sentinel.Dedupe
use market_sentinel.Dedupe.Spacing.{accept_all-Chain, accept_suppresses}
use market_sentinel.Cooldown
use market_sentinel.Cooldown.{CooldownGate, allow}
use market_sentinel.Cooldown.Spacing.{Ask, allowed, allowed-Chain}
use market_sentinel.Cluster.{partition_lineage_episodes}
use market_sentinel.Cluster.Episodes.{all_members, partition-perm, IsEpisode, partition-IsEpisode}
use market_sentinel.Tests.{event_at}

abbrev up_move : MarketEvent Micro
up_move = event_at "e1" EventType.rapid_move EventDirection.up 3 100

abbrev again : MarketEvent Micro
again = event_at "e2" EventType.rapid_move EventDirection.up 3 130

abbrev spike : MarketEvent Micro
spike = event_at "e3" EventType.volume_spike EventDirection.flat 4 90

abbrev events : List (MarketEvent Micro)
events = up_move ∷ again ∷ spike ∷ []

abbrev deduper : EventDeduper Micro
deduper = record { records = [] }

accepts_once : (accept_all (up_move ∷ again ∷ []) deduper).0 ≡ up_move ∷ []
unfolding accept_all get set
accepts_once = refl

accept_all-Chain_example :
    Chain Dedupe.Spacing.gate
      (get "AAA|move" deduper.records)
      (of_key Dedupe.Spacing.gate "AAA|move" (accept_all events deduper).0)
accept_all-Chain_example = accept_all-Chain "AAA|move" events deduper

kept : (accept up_move deduper).0 ≡ some up_move
unfolding accept get
kept = refl

abbrev cooldown : CooldownGate Micro
cooldown = record { cooldown_s = num 300; last = [] }

abbrev asks : List (Ask Micro)
asks =
    record { now = num 10; signal_id = "s"; priority = SignalPriority.notice }
    ∷ record { now = num 20; signal_id = "s"; priority = SignalPriority.notice }
    ∷ record { now = num 30; signal_id = "s"; priority = SignalPriority.critical }
    ∷ []

allowed-Chain_example :
    Chain
      (Cooldown.Spacing.gate (num 300))
      (get "s" cooldown.last)
      (of_key (Cooldown.Spacing.gate (num 300)) "s" (allowed asks cooldown))
allowed-Chain_example = allowed-Chain "s" asks cooldown

partition-perm_example :
    Perm (all_members (partition_lineage_episodes events EventDirection.up)) events
partition-perm_example = partition-perm events EventDirection.up

partition-IsEpisode_example : All IsEpisode (partition_lineage_episodes events EventDirection.flat)
partition-IsEpisode_example = partition-IsEpisode Micro-IsOrdered events EventDirection.flat
