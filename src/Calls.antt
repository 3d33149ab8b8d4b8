-- ===== src/Calls.antt =====
-- call_manager.py: the call between the SIP client and the audio bridge (`CallManager`).
pub mod Manager
pub mod Start
pub mod Bridge
pub mod Sockets
pub mod Life
pub mod Shutdown
pub mod Reports
pub mod Ends
pub mod Steps
pub mod Moves
mod Tests
