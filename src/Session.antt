-- ===== src/Session.antt =====
-- The session of sdk/python/src/shinken/client.py, class AsyncSandbox, part by part.
pub mod Gate
pub mod Batch
pub mod Frames
pub mod Demux
pub mod Wire
pub mod Floats
pub mod Targets
pub mod Shots
