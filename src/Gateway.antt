-- ===== src/Gateway.antt =====
-- gateways/access_gateway: the calls of services, the router, the HTTP and WebSocket handlers.
pub mod Invoke
pub mod Messages
pub mod Router
pub mod Server
pub mod Http
pub mod Session
pub mod Lifecycle
