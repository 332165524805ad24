-- ===== src/Ucan/Tests.antt =====
-- A small network in which a node delegates to a user, who lets a guest invoke an actor of the
-- node. The formats and signatures are toy ones, in place of JSON and of the key schemes.
pub mod World
mod Contexts
mod Roots
mod Tokens
