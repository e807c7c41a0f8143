-- ===== src/Server.antt =====
-- The server, src/server: the managers that its proxies share.
pub mod Ports
pub mod Registry
pub mod Group
pub mod Proxies
pub mod Control
pub mod WorkConns
pub mod Visitors
pub mod Logins
