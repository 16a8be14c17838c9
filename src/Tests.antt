-- ===== src/Tests.antt =====
-- Runs of the code on concrete values, at which the theorems apply.
mod Tokens
mod Dispatch
mod Maps
mod Agent
mod Mesh
mod Subnets
mod Planning
mod System
mod Firewall
mod Rotation
mod Dns
