-- ===== src/Rtp.antt =====
-- audio_bridge.py: the media endpoints of a call.
pub mod Packet
pub mod Keyframe
pub mod Stats
pub mod Audio
pub mod Video
pub mod Rtcp
pub mod Pli
mod Tests
