-- ===== src/Cdc/Replication.antt =====
-- cdc/logical_replication.py: messages of a replication stream are decoded, their changes handed on,
-- and the position in the stream kept in a checkpoint store. Delays are in ticks of a clock.
pub mod Backoff
pub mod Client
pub mod Stores
pub mod Stored
pub mod Progress
pub mod Sinks
pub mod Poison
pub mod Cut
mod Tests
