-- ===== src/Outgoing.antt =====
-- What a client's connection is to write, vangers-srv/src/client.rs.
pub mod Updates
pub mod Outbox
