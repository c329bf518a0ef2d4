-- ===== src/Xfer.antt =====
-- gtcd/xfer/xferPlugin_gtc.{h,cc}: the transfers of chunks, descriptors and bitmaps between two
-- daemons. Each is a loop in which the client asks for the page at the offset that it has reached;
-- a server's reply and a client's callback are one function each.
pub mod Messages
pub mod Bitmap
pub mod Chunk
pub mod Descriptors
pub mod Connections
pub mod Routing
pub mod Hint
