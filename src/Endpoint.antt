-- ===== src/Endpoint.antt =====
-- e3x/endpoint.go, identity.go and hooks.go: the exchanges of an endpoint and the messages that it routes
-- to them. Modules, the transport, the log and the start of an endpoint are left out.
pub mod Table
pub mod Hooks
pub mod Identity
pub mod Exchanges
pub mod Laws
pub mod Tests
