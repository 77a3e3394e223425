-- ===== src/Agent/Invariants.antt =====
-- A rule of invariants for the whole agent: what every store operation, every model call and every
-- unapproved execution keeps, each entry point keeps, however it returns or raises.
pub mod Rules
pub mod Tables
pub mod Calls
pub mod Loop
pub mod Entry
