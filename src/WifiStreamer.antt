-- ===== src/WifiStreamer.antt =====
-- examples/other/wifi-img-streamer: camera frames as CPX packets to a computer.
pub mod Pipeline
pub mod CpxStream
pub mod HimaxTiming
pub mod App
mod Tests
mod HimaxTests
