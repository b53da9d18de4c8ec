-- ===== src/Tests.antt =====
-- Examples: every theorem of the list in Lib.antt that has conditions is applied at a concrete input.
pub mod Encoding
mod Governing
mod Authenticating
mod Routing
mod Serving
mod Configuring
mod Storing
mod Sessions
mod Processes
mod Messaging
