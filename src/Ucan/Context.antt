-- ===== src/Ucan/Context.antt =====
-- lib/ucan/context.go: the capability context of a node, an actor or a user.
pub mod State
pub mod Require
pub mod Roots
pub mod Consume
pub mod Discard
pub mod Every
pub mod Invariant
pub mod Reach
pub mod Provide
