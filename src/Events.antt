-- ===== src/Events.antt =====
-- apps/server/src: events from outside that call tools.
pub mod Render
pub mod Dispatcher
