-- ===== src/Service.antt =====
-- src/svc: the two services, from their settings to the start of the server.
pub mod Env
pub mod Run
pub mod Started
pub mod Restart
pub mod Agree
