-- ===== src/Tests.antt =====
-- The theorems at concrete inputs, and runs of the definitions.
mod Chunks
mod Streams
mod Segments
mod Frames
mod Stored
mod Transfer
mod Gets
mod Plugins
mod Hops
mod Settings
