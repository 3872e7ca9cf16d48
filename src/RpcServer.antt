-- ===== src/RpcServer.antt =====
-- rpc_server.py: the builder of a server, its start and end, the connections it holds, and the
-- coroutine that serves one connection.
pub mod Builder
pub mod Lifecycle
pub mod Races
pub mod Exclusion
pub mod Connections
pub mod Open
pub mod Runner
