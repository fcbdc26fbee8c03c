-- ===== src/RedisStream.antt =====
-- The Redis stream source.
pub mod Acks
pub mod Reclaim
