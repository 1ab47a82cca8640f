-- ===== src/Lob/RoundTrip.antt =====
-- internal/lob: what is encoded is decoded to the packet it was.
pub mod Prefix
pub mod Number
pub mod Text
pub mod Field
pub mod Object
pub mod Canonical
pub mod Whole
pub mod Total
pub mod Extra
pub mod Extras
