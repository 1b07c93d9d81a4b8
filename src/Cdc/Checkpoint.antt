-- ===== src/Cdc/Checkpoint.antt =====
-- cdc/checkpoint.py: the stores of resume tokens (replication slot positions).
pub mod InMemory
pub mod Persistent
pub mod Saves
pub mod Durability
pub mod Resets
mod Tests
