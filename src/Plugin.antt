-- ===== src/Plugin.antt =====
-- The plugins of the server: package plugin.
pub mod ConnLimit
pub mod IpFilter
pub mod Compression
pub mod TrafficLog
pub mod RateLimit
pub mod Manager
mod Tests
