-- ===== src/Tests.antt =====
-- The theorems at concrete inputs.
mod Containers
mod Connections
mod Servers
mod Https
mod Clients
mod Registries
mod Calls
mod Closings
