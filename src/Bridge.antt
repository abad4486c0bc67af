-- ===== src/Bridge.antt =====
-- The bridge between the channels and the native side.
pub mod Delivery
pub mod Identity
pub mod Pump
