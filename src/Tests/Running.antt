-- ===== src/Tests/Running.antt =====
-- Tests of the engine and of the daemon.
use mathlib.Core.Bool.{false≢true}
use market_sentinel.Base.{List, String, ◌≡◌, refl, false, none, some, [], ◌∷◌, arith, if◌then◌else◌}
use market_sentinel.Base.Eq.{string_eq, ◌==◌}
use market_sentinel.Base.Dict.{get}
use market_sentinel.Base.Float.{Micro, Micro-IsOrdered, Micro-IsMonotone, micro_float, num}
use market_sentinel.Watchlist.{Watchlist}
use market_sentinel.Watchlist.Limit
use market_sentinel.Scheduler
use market_sentinel.Health
use market_sentinel.Warming
use market_sentinel.Buffers.{SymbolBuffers}
use market_sentinel.Buffers.Newest
use market_sentinel.Runtime.{Clock, Answer, quotes, MarketEngine, EngineTickResult}
use market_sentinel.Runtime.Process.{due_now, tick}
use market_sentinel.Runtime.Valid
use market_sentinel.Runtime.Ticked.{Ticked, tick-Ticked}
use market_sentinel.Runtime.Fetched.{is_in}
use market_sentinel.Runtime.Marks.{fetched_at, tick-Marked}
use market_sentinel.Features.Engine.{default_policy}
use market_sentinel.Ipc.Json.{
  Json, Fields, huge, number, text, object, JsonLibrary, malformed, value, fields_of, get_field,
}
use market_sentinel.Ipc.Codec.{DaemonPhase, HostCommand, command_of, decode_line}
use market_sentinel.Ipc.Daemon.{
  MarketDaemon, Surroundings, Reply, dispatch_line, read_line, tick_turn, handle, hello, send_error,
}
use market_sentinel.Ipc.HostInteraction.{extra_keys, denied_keys}
use market_sentinel.Ipc.UserFeedback.{parse_user_feedback, label_of}
use market_sentinel.Ipc.Daemon.Phases.{Untouched}
use market_sentinel.Ipc.Daemon.Replies.{IsPlain, Received, dispatch_line-Received}
use market_sentinel.Ipc.Daemon.Interleaving.{Reach, here, next, received, Reach-idle}
use market_sentinel.Ipc.Daemon.Sound.{IsSound, Reach-goes_on}
use market_sentinel.Ipc.Daemon.Stopped.{Reach-stopped}
use market_sentinel.Tests.{quote_at, item}
use market_sentinel.Tests.Days.{calendar}
use market_sentinel.Tests.Composing.{uuid, uuid_unique, formats, pipeline, composer-IsValid}

abbrev watchlist : Watchlist
watchlist = record {
  limit = 5;
  persist = false;
  file = none;
  items = ("AAA", item "AAA") ∷ ("BBB", item "BBB") ∷ [];
}

abbrev buffers : SymbolBuffers Micro
buffers = record { retention_s = num 5000; max_size = 100; buffers = [] }

abbrev engine : MarketEngine Micro
engine = record {
  watchlist = watchlist;
  scheduler = record {
    policy = Scheduler.default_policy;
    levels = [];
    last_change_mono = [];
    last_fetch_mono = [];
  };
  buffers = buffers;
  states = record { states = [] };
  health = record { policy = Health.default_policy; symbols = [] };
  feature_policy = default_policy;
  pipeline = pipeline;
  warming = Warming.default_config;
  fetched_symbols = [];
  diagnostics = record {
    out_of_order_count = 0;
    duplicate_timestamp_count = 0;
    recovery_count = 0;
    last_fetch_error = none;
  };
}

buffers-IsValid : Newest.IsValid buffers
unfolding get
buffers-IsValid = record {
  room = omega arith;
  positive = refl;
  each = λ k b e. absurd (ground arith);
}

engine-IsValid : Valid.IsValid uuid engine
engine-IsValid = record { buffers = buffers-IsValid; composer = composer-IsValid }

abbrev clock : Clock Micro
clock = record { monotonic = λ moment symbol. num 7; now = λ symbol. num 501 }

-- an answer with a quote for one of the two symbols
abbrev answer : Answer Micro
answer = quotes (quote_at "AAA" 500 100 ∷ [])

tick-Ticked_example :
    (r : EngineTickResult Micro) × (d : MarketEngine Micro) × (tick uuid formats calendar clock
        answer engine
      ≡ some (r, d))
    × Ticked uuid uuid_unique formats calendar clock answer engine (r, d)
tick-Ticked_example =
    tick-Ticked uuid uuid_unique formats calendar clock Micro-IsOrdered Micro-IsMonotone answer
      engine engine-IsValid

abbrev ran :
    (r : EngineTickResult Micro) × (d : MarketEngine Micro) × (tick uuid formats calendar clock
        answer engine
      ≡ some (r, d))
    × Ticked uuid uuid_unique formats calendar clock answer engine (r, d)
ran =
    tick-Ticked uuid uuid_unique formats calendar clock Micro-IsOrdered Micro-IsMonotone answer
      engine engine-IsValid

tick-Marked_example :
    fetched_at clock "AAA" ran.1
    ≡ (if is_in "AAA" (due_now clock engine) then some (num 7) else fetched_at clock "AAA" engine)
tick-Marked_example = tick-Marked clock uuid formats calendar answer engine ran.1 ran.0 ran.2 "AAA"

abbrev request : String → Json Micro
request type = object (
    fields_of
      (("protocol_version", number (num 1)) ∷ ("type", text type) ∷ ("request_id", text "r1") ∷ []))

-- a library that reads the name of a command as that command
abbrev json : JsonLibrary Micro
json = record {
  strip = λ s. s;
  loads = λ s. if s == "not JSON" then malformed else value (request s);
  repr = λ v. "None";
  sorted_keys = λ keys. "[]";
}

abbrev around : Surroundings Micro
around = record {
  json = json;
  view = λ id. none;
  intelligence_enabled = false;
  replay_complete = false;
  now = num 8;
  refuses = λ fact. false;
  error_text = λ error. "watchlist";
}

abbrev first : MarketDaemon Micro
first = record {
  engine = engine;
  phase = DaemonPhase.awaiting_hello;
  interactions = [];
  feedback = [];
}

hello-IsPlain : IsPlain (decode_line json "hello")
unfolding decode_line get_field
hello-IsPlain = tt

dispatch_line-Received_example :
    Received (decode_line json "hello") first (dispatch_line around "hello" first)
dispatch_line-Received_example = dispatch_line-Received around "hello" first hello-IsPlain

abbrev greeted : MarketDaemon Micro
greeted = record first { phase = DaemonPhase.ready }

hello_ready : (out : List (Json Micro)) × (read_line around "hello" first ≡ some (out, greeted))
unfolding read_line dispatch_line decode_line command_of handle hello get_field
hello_ready = (_, refl)

after_hello : Reach uuid formats calendar first greeted
after_hello = next here (received around "hello" hello-IsPlain hello_ready.1)

Reach-idle_example : Untouched engine greeted.engine
Reach-idle_example = Reach-idle uuid formats calendar first greeted after_hello refl

watchlist-IsValid : Limit.IsValid watchlist
unfolding get
watchlist-IsValid = record {
  bounded = omega arith;
  unique = (refl, (refl, tt));
  keyed = (refl, (refl, tt));
  durable = λ py e. absurd (false≢true e);
}

Reach-goes_on_example :
    IsSound uuid engine
    × ((around : Surroundings Micro) (clock : Clock Micro) (answer : Answer Micro)
        → (r : Reply Micro) × (tick_turn uuid formats calendar around clock answer greeted ≡ some r)
          × IsSound uuid r.1.engine)
    × ((around : Surroundings Micro) (line : String)
        → IsPlain (decode_line around.json line)
        → (r : Reply Micro) × (read_line around line greeted ≡ some r))
Reach-goes_on_example =
    Reach-goes_on uuid uuid_unique formats calendar Micro-IsOrdered Micro-IsMonotone first greeted
      after_hello (record { engine = engine-IsValid; watchlist = watchlist-IsValid })

abbrev stopped : MarketDaemon Micro
stopped = record first { phase = DaemonPhase.shutting_down }

hello_stopped : (out : List (Json Micro)) × (read_line around "hello" stopped ≡ some (out, stopped))
unfolding read_line dispatch_line decode_line command_of send_error get_field
hello_stopped = (_, refl)

still_stopped : Reach uuid formats calendar stopped stopped
still_stopped = next here (received around "hello" hello-IsPlain hello_stopped.1)

Reach-stopped_example :
    (stopped.phase ≡ DaemonPhase.shutting_down) × Untouched engine stopped.engine
Reach-stopped_example = Reach-stopped uuid formats calendar stopped stopped still_stopped refl

-- An integer beyond the floats as the timestamp of a feedback is an exception that leaves the daemon.
abbrev late : Fields Micro
late =
    fields_of (
      ("signal_id", text "s1")
      ∷ ("feedback_type", text "useful")
      ∷ ("created_timestamp", huge)
      ∷ [])

huge_timestamp_raises : handle around HostCommand.user_feedback "r1" late greeted ≡ none
unfolding handle parse_user_feedback extra_keys denied_keys label_of get_field
huge_timestamp_raises = refl
