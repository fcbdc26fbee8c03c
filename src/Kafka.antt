-- ===== src/Kafka.antt =====
-- The Kafka plugin.
pub mod Wire
pub mod Cursor
pub mod Consumer
pub mod Controls
pub mod Resume
pub mod Positioning
pub mod Compaction
pub mod Scan
pub mod Sink
pub mod SchemaCache
pub mod Poison
pub mod Delivery
