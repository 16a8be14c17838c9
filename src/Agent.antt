-- ===== src/Agent.antt =====
-- coold: the agent on each host.
pub mod Model
pub mod Podman
pub mod Sync
pub mod Containers
pub mod Ingress
pub mod Handlers
pub mod Rules
pub mod Firewall
pub mod Dial
pub mod HostJwt
pub mod Dns
pub mod Client
