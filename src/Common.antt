-- ===== src/Common.antt =====
-- src/common/: what both servers are built on, except for the codec (`Codec`).
pub mod Redis
pub mod SessionStore
pub mod RateLimiter
pub mod Tokens
pub mod Fixtures
pub mod Tests
