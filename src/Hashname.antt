-- ===== src/Hashname.antt =====
-- internal/hashname/hashname.go, internal/util/base32util: hashnames and their text form.
pub mod Base32
pub mod Derive
pub mod Laws
pub mod Keys
pub mod Tests
