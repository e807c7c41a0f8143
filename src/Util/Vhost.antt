-- ===== src/Util/Vhost.antt =====
-- Routing by virtual host, src/pkg/util/vhost.
pub mod Router
pub mod Find
mod Examples
