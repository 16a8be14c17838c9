-- ===== src/System.antt =====
-- The parts together: flux, the stream of a host and the agent on it.
pub mod Capabilities
pub mod Roundtrip
