-- ===== src/Vless.antt =====
-- proxy/vless: the VLESS inbound. One child for each file of the package.
pub mod Server
pub mod Ratelimit
pub mod Quota
pub mod Traffic
pub mod Protocol
pub mod User
pub mod Handler
pub mod Udp
pub mod Config
pub mod Security
pub mod Start
pub mod Relay
pub mod HandleTcp
pub mod Vision
pub mod Mux
pub mod Connection
pub mod System
