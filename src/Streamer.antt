-- ===== src/Streamer.antt =====
-- nanocockpit/lib/streamer.c: frames are cut into CPX packets, and buffers put together from them.
pub mod Packet
pub mod Send
pub mod Receive
pub mod Segments
pub mod Steps
pub mod Progress
pub mod RoundTrip
mod Tests
