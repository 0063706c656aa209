-- ===== src/Network.antt =====
-- src/network/server.rs and src/main.rs: the sessions of TCP clients, the HTTP requests, and the arguments.
pub mod Arguments
pub mod Session
pub mod Guard
pub mod Connections
pub mod Database
pub mod Handlers
pub mod Hotswap
pub mod Router
pub mod Login
pub mod Metrics
pub mod Relayed
pub mod Main
pub mod Access
mod Tests
mod ArgumentTests
mod DatabaseTests
mod RelayTests
mod MainTests
