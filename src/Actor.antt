-- ===== src/Actor.antt =====
-- actor: messages between actors, who may send them, and how many of them are let in.
pub mod Message
pub mod Limiter
pub mod Security
pub mod Dispatch
mod Tests
