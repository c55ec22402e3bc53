-- ===== src/Tests.antt =====
-- Runs at concrete inputs, and the theorems applied where their conditions hold.
mod Http
mod Core
mod Server
mod Startup
mod Life
mod Request
mod Run
