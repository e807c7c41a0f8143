-- ===== src/Config.antt =====
-- src/pkg/config/source: where the proxies and visitors of a client are configured; src/pkg/config/types: the
-- ranges of ports.
pub mod Store
pub mod Reading
pub mod Aggregator
pub mod PortsRanges
mod Examples
