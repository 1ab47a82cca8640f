-- ===== src/Channel/Buffer.antt =====
-- e3x/channel.go: facts about the read buffer as a list ordered by sequence number.
pub mod Search
pub mod Sort
