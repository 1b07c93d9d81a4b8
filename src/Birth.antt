-- ===== src/Birth.antt =====
-- The birth service (`alias_cache.py`, `service.py`): the aliases that births register, the names of
-- metrics, the requests for rebirths, what is persisted of a frame, and the runtime around it.
pub mod AliasCache
pub mod Payload
pub mod Aliases
pub mod Frames
pub mod Persistence
pub mod Messages
pub mod Topics
mod Tests
pub mod Runtime
pub mod Compression
