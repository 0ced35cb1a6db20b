-- ===== src/Controller.antt =====
-- controller.hpp and controller.cpp: `class Controller`, which keeps the latest telemetry and
-- attributes, sends what has changed, and reacts to the broker through a single-thread client.
pub mod State
pub mod Payload
pub mod Sending
pub mod Reactions
pub mod Changed
pub mod Writes
pub mod Contents
pub mod Offline
pub mod Outbox
pub mod Messages
pub mod Reconnect
pub mod Frame
pub mod Growth
pub mod Callbacks
pub mod Rpc
pub mod Connecting
pub mod Stability
pub mod History
pub mod Handle
pub mod Lifetime
pub mod Resources
pub mod Unordered
pub mod Reordering
pub mod ReorderingCallbacks
pub mod Indifference
pub mod Commuting
pub mod Identifiers
