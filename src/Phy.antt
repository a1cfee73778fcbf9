-- ===== src/Phy.antt =====
-- The choice of a PHY for a connection (src/phy): the types, the strategies, and the controller.
pub mod Types
pub mod Strategy
pub mod Steady
pub mod Controller
pub mod Recommended
mod Tests
