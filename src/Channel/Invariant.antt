-- ===== src/Channel/Invariant.antt =====
-- e3x/channel.go: the invariant of a channel, over every step of every goroutine.
pub mod Frame
pub mod Defs
pub mod Read
pub mod Write
pub mod Receive
pub mod Step
pub mod Gap
pub mod Order
pub mod Grow
pub mod Delivery
