-- ===== src/Ucan.antt =====
-- lib/ucan: capabilities, capability tokens and the capability context.
pub mod Capability
pub mod Did
pub mod Token
pub mod Allow
pub mod Verify
pub mod Delegate
pub mod Context
pub mod Tests
