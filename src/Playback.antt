-- ===== src/Playback.antt =====
-- Playback sessions: the playback tables of apps/gateway/src/GatewayStore.js, and createPlayback
-- and deliverStream of server.js.
pub mod Store
pub mod Create
pub mod Deliver
pub mod Exclusive
pub mod Histories
pub mod Grants
pub mod Streams
pub mod Replays
pub mod Tests
