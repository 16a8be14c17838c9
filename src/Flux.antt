-- ===== src/Flux.antt =====
-- flux: the gRPC server that coold dials, and the lane that the control plane calls.
pub mod Streams
pub mod Pending
pub mod Capabilities
pub mod Auth
pub mod Revocation
pub mod Envelope
pub mod Replies
pub mod Routing
pub mod Session
pub mod Bridge
pub mod Denylist
pub mod Inventory
