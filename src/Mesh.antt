-- ===== src/Mesh.antt =====
-- The parts of coolify-cli that plan a mesh of hosts (coolify-cli/src/wireguard).
pub mod Subnets
pub mod Texts
pub mod Firewall
pub mod Services
pub mod Config
pub mod State
pub mod Planning
pub mod Phases
pub mod Apply
pub mod Requests
pub mod Intent
pub mod Addresses
