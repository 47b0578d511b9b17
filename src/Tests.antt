-- ===== src/Tests.antt =====
-- The theorems at concrete inputs.
pub mod Fixture
pub mod Codes
pub mod People
pub mod Registry
pub mod Flow
pub mod Life
pub mod Boot
pub mod Ready
