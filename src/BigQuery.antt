-- ===== src/BigQuery.antt =====
-- The BigQuery plugin.
pub mod StorageWrite
