-- ===== src/PricingCleanup.antt =====
-- app/pricing_cleanup.py and app/pricing_cleanup_runner.py: the removal of temporary price overrides.
pub mod Record
pub mod Ownership
pub mod Store
pub mod Program
pub mod WriteClient
pub mod Runner
pub mod Permits
pub mod Console
pub mod Proven
pub mod Answered
pub mod Uninterrupted
pub mod Queue
pub mod System
pub mod View
pub mod Writes
pub mod Effects
pub mod Surroundings
pub mod Kept
pub mod Acts
pub mod Outsiders
pub mod OneDelete
