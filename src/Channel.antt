-- ===== src/Channel.antt =====
-- e3x/channel.go: reliable and unreliable channels.
pub mod Types
pub mod Guards
pub mod Miss
pub mod Send
pub mod Sent
pub mod Read
pub mod Receive
pub mod Deadlines
pub mod Close
pub mod Step
pub mod Outcome
pub mod Ascends
pub mod Buffer
pub mod Invariant
pub mod Refine
pub mod Tests
