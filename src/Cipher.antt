-- ===== src/Cipher.antt =====
-- e3x/cipherset: keys and parts of an identity, tokens, and the cipher sets.
pub mod Inner
pub mod Parts
pub mod Token
pub mod Answer
pub mod Cs3a
pub mod Cs1a
pub mod Tests
