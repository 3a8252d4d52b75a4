-- ===== src/System.antt =====
-- Both services with their Redis server, as one system: by whole handlers, and command by command.
pub mod Keys
pub mod Waiting
pub mod Clean
pub mod Queue
pub mod Rest
pub mod Reach
pub mod Tasks
pub mod Turns
