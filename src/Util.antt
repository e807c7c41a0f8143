-- ===== src/Util.antt =====
-- The shared packages: src/pkg/util, src/pkg/naming and src/pkg/transport.
pub mod Texts
pub mod Naming
pub mod Vhost
pub mod DateCounter
pub mod Decimal
pub mod FeatureGate
pub mod Transporter
