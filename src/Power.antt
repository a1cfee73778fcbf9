-- ===== src/Power.antt =====
-- Power management (src/power): profiles and the battery, and the radio scheduler.
pub mod Profile
pub mod Queue
pub mod Scheduler
pub mod Ranks
pub mod Pending
pub mod Serving
pub mod Wake
mod Tests
