-- ===== src/Transport.antt =====
-- transport/: the registry of transports, their security layers, and the bridge to xray-core.
pub mod Settings
pub mod Tls
pub mod Reality
pub mod Security
pub mod Address
pub mod Bridge
pub mod Registry
pub mod ChanListener
