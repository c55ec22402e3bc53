-- ===== src/Server.antt =====
-- src/yotta.cpp: the HTTP file server on top of the event loop.
pub mod State
pub mod Url
pub mod Headers
pub mod Handler
pub mod Options
pub mod Main
