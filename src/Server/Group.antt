-- ===== src/Server/Group.antt =====
-- Load-balancing groups of proxies, src/server/group.
pub mod Registry
pub mod Base
pub mod Tcp
pub mod Http
