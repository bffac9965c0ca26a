-- ===== src/Tests.antt =====
-- Concrete states and inputs on which the library's statements are tried out.
pub mod Scores
pub mod Places
pub mod Data
pub mod Texts
pub mod Collections
pub mod Sessions
pub mod Messages
pub mod Bytes
pub mod Inputs
pub mod Documents
