-- ===== src/Appserver.antt =====
-- The app-server: what its messages mean.
pub mod ProtocolMap
