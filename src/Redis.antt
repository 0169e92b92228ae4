-- ===== src/Redis.antt =====
-- internal/redis: the wire protocol, the parsed replies, the client's commands.
pub mod Samples
mod Tests
pub mod Resp
pub mod Info
pub mod Client
