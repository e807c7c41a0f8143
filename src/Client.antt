-- ===== src/Client.antt =====
-- The client, src/client.
pub mod Wrapper
pub mod Health
pub mod Keyed
pub mod Proxies
pub mod Visitors
