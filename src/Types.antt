-- ===== src/Types.antt =====
-- types: the resources of a machine and how they are compared.
pub mod Comparison
pub mod Hardware
mod Tests
