-- ===== src/Lib.antt =====
-- MarketSentinel: the deterministic market core.
--
-- The program watches a short list of symbols. A tick fetches quotes of the symbols that the scheduler
-- finds due, keeps the recent ones of each symbol in a ring buffer, notes the health of the feed, derives
-- features, detects events, groups them into signals and lets some of these through as alerts. This library
-- models the parts that decide, and proves what they promise. Paths are from the repository's root.
--
-- Parts and files:
--   Base             lists, dictionaries in insertion order (`dict`), equality tests, floats, strings
--   Domain           the dataclasses and enumerations of src/market_sentinel/domain
--   Watchlist        src/market_sentinel/watchlist/watchlist.py; Stored the JSON value of its file;
--                    Limit, Saved, History, Failures and Replace hold its proofs
--   RingBuffer       src/market_sentinel/market_data/ring_buffer.py; Place, Bounds, Queries
--   Buffers          src/market_sentinel/market_data/buffers.py, the ring buffers of all symbols; Newest
--   Scheduler        src/market_sentinel/scheduler; Transitions, Due
--   Health           src/market_sentinel/health; Status, Worst
--   Events           src/market_sentinel/events, its thresholds and rules/common.py; Rules the six
--                    rules, Detector the loop; Severity, Shape
--   Warming          src/market_sentinel/orchestration/warming.py, the level that features and events ask for
--   Gate             the table of records that the next two share
--   Dedupe           src/market_sentinel/signals/dedupe.py
--   Cooldown         src/market_sentinel/signals/cooldown.py
--   Cluster          src/market_sentinel/signals/cluster.py; Sorting, Episodes
--   Priority         src/market_sentinel/signals/copy.py; Floor
--   Composer         src/market_sentinel/signals/composer.py, its state, identities and
--                    pruning; Batch and Rows the rest of its methods; Valid, Pruning, Identities,
--                    Consumed, Found, Members and Consume hold its proofs
--   Pipeline         src/market_sentinel/signals/pipeline.py; Processed
--   StateStore       src/market_sentinel/market_data/state.py; Fields
--   Indicators       src/market_sentinel/features/indicators.py, and the extremes of
--                    src/market_sentinel/market_data/session.py; Streaming
--   Intelligence     src/market_sentinel/intelligence: contract.py, compress.py and router.py;
--                    Coordinator, Observe and Work coordinator.py and registry.py, cut where the
--                    source waits; Router, Budget and Runs hold proofs
--   Session          src/market_sentinel/market_data/session.py, the day of a timestamp
--   Features         src/market_sentinel/features: Bars bars.py, Rolling rolling.py, Engine engine.py;
--                    Day, Isolation, DayRange, Order and Shape hold its proofs
--   Runtime          src/market_sentinel/runtime: the engine's state and results; Fetch `_fetch_due` and
--                    `_ingest_snapshot`, Process `_process_symbol` and `tick`; Newest, Fetched, Valid,
--                    Ticked and Marks hold its proofs
--   Ipc              src/market_sentinel/ipc: Codec protocol.py and codec.py, Dto dto.py, Mapping
--                    mapping.py, Daemon daemon.py, and Json the values they exchange; HostInteraction and
--                    UserFeedback are those files of src/market_sentinel/telemetry. Below Daemon, Phases
--                    is the protocol as a table, Interleaving the turns of the two loops as a step
--                    relation, and Raising, Answers, Handlers, Replies, Sound and Stopped hold proofs
--   Tests            runs at concrete inputs
--
-- State and operations: an object of the source is a record of its fields, a method a function that takes
-- the object last and answers the new one beside its result. A method that raises answers `raised`, `broken`
-- or `none` in place of its result. Loops are recursions on the list that they walk, so no fuel is needed.
--
-- Floats: `float` is a type F with the operations of the source as an instance (Base/Float.antt). It stands
-- for finite doubles whose differences do not overflow. The proofs that need laws of comparison or of
-- subtraction take them as `IsOrdered` and `IsMonotone`; the fixed-point numbers `Micro` have both. Python's `sum` of
-- floats is a fold of `+` here. A literal
-- is `dec n k`, that is n / 10 ^ k.
--
-- Clocks and identifiers: a reading of a clock is the argument `now`; where a method reads a clock more than
-- once, all readings of one call are that one. A tick of the engine reads the monotonic clock at the places
-- that `Moment` lists, and each reading is whatever `Clock` answers there. `uuid4` is a function of a call counter, which the composer's
-- record holds; that its identifiers never repeat is a hypothesis of the proofs that need it. The formatting
-- of numbers in an f-string is an argument, `Formats`.
--
-- Files: how a write of the watchlist goes is the argument `Disk`. What stands in its file is the JSON value
-- that `json.loads` reads there; that it is the value `json.dumps` was given is the json module's. `str` and
-- `bool` of values that the source never writes are the argument `Python`. The daemon's watchlist is made by
-- cli/main.py with `persist=False`, which writes nothing.
--
-- Libraries: the dates of `datetime` and `math.floor` are the argument `Platform`, and `json` with the text
-- methods of the protocol is `JsonLibrary`. What the provider answers is the argument `Answer`, and what else
-- stands around the daemon is `Surroundings`. The order of the daemon's turns is that of its lock: one line, or
-- one turn of the tick loop, at a time.
--
-- Not modelled: providers, the daemon's streams, the language models and the tasks that wait for them, the MCP server, the command line
-- and the telemetry files, which are input and output; the editor extension, which is not Python. Log lines
-- are left out everywhere.
pub mod Base
pub mod Domain
pub mod Watchlist
pub mod RingBuffer
pub mod Buffers
pub mod Scheduler
pub mod Health
pub mod Events
pub mod Warming
pub mod Gate
pub mod Dedupe
pub mod Cooldown
pub mod Cluster
pub mod Priority
pub mod Composer
pub mod Pipeline
pub mod StateStore
pub mod Indicators
pub mod Intelligence
pub mod Session
pub mod Features
pub mod Runtime
pub mod Ipc
pub mod Tests
