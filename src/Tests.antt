-- ===== src/Tests.antt =====
-- Runs of the definitions, and instances of the theorems.
mod Ranges
mod Logs
mod Groups
mod Questions
mod Loops
mod Replicas
mod Bytes
mod Clients
mod Clusters
mod Servers
mod Extras
