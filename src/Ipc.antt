-- ===== src/Ipc.antt =====
-- src/market_sentinel/ipc and the commands of telemetry: the daemon that a host talks to in JSON lines.
pub mod Json
pub mod Codec
pub mod HostInteraction
pub mod UserFeedback
pub mod Dto
pub mod Mapping
pub mod Daemon
