-- ===== src/Realtime.antt =====
-- internal/wsnearby, internal/ws, internal/wsplatform and the batch writer of internal/storage: the
-- live side of the service.
pub mod ConnLimiter
pub mod Hub
pub mod BatchWriter
pub mod MessageLimiter
pub mod Messages
pub mod Slots
pub mod LocationGuard
pub mod Session
