-- ===== src/Sip.antt =====
-- custom_components/intratone/sip_client.py: the SIP user agent, one TCP connection for one call.
pub mod Types
pub mod Header
pub mod Build
pub mod Client
pub mod Protocol
pub mod Receive
mod Tests
