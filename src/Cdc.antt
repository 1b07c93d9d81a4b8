-- ===== src/Cdc.antt =====
-- cdc/: the change-data-capture listener and the stores and buffers behind it.
pub mod Checkpoint
pub mod Diffing
pub mod Debounce
pub mod Replication
pub mod Listener
