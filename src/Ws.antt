-- ===== src/Ws.antt =====
-- The websocket service of executorws (server.go and executorws.go): topics, subscriptions, the
-- delivery of new orders, and the messages of a connection.
pub mod Topic
pub mod Subs
pub mod Notify
pub mod Session
pub mod Serving
pub mod Hub
