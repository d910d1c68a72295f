-- ===== src/Media.antt =====
-- apps/gateway/src/media.
pub mod Range
pub mod Served
pub mod Tests
