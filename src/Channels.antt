-- ===== src/Channels.antt =====
-- The channels: who may write, how long texts are cut, and how an inbound message is handled.
pub mod Access
pub mod Artifacts
pub mod Middleware
pub mod Outbound
pub mod Text
pub mod Webhook
