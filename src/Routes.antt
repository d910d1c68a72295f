-- ===== src/Routes.antt =====
-- The routes of `createGatewayServer` in apps/gateway/src/server.js, as a table in the order of its
-- tests. A path is the list of its texts between slashes, which no pattern of a part has.
pub mod Patterns
pub mod Table
pub mod Dispatch
pub mod Guarded
pub mod Tests
