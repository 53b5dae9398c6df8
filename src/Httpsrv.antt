-- ===== src/Httpsrv.antt =====
-- internal/httpsrv, and the proxy of internal/algod that it uses.
pub mod Auth
pub mod Proxy
pub mod Handlers
pub mod Routes
pub mod Servers
pub mod Logging
