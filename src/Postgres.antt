-- ===== src/Postgres.antt =====
-- postgres: the rows of a sink, how they are prepared for statements, and how they are flushed.
pub mod Errors
pub mod Preparation
pub mod Flush
