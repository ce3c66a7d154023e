-- ===== src/Gateway.antt =====
-- internal/webgateway: the browser gateway, in front of the manager's Unix socket.
pub mod Sessions
pub mod Requests
pub mod Routes
pub mod Serve
pub mod Summary
