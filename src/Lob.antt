-- ===== src/Lob.antt =====
-- internal/lob: the packet type, its header, and the wire format.
pub mod Packet
pub mod Extra
pub mod Scan
pub mod Parse
pub mod Print
pub mod Coder
pub mod RoundTrip
pub mod Tests
