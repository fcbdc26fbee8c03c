-- ===== src/Distributed.antt =====
-- distributed/: the leases that let one worker at a time run a pipeline.
pub mod Redis
pub mod Keys
pub mod Primary
pub mod Redlock
pub mod Workers
pub mod Operations
