-- ===== src/DemoUsers.antt =====
-- `registerDemoUser` of apps/gateway/src/server.js, on the demo_user_registrations of
-- apps/gateway/src/GatewayStore.js.
pub mod Registration
pub mod Repeats
pub mod Tests
