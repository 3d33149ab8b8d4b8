-- ===== src/Sip/Header.antt =====
-- sip_client.py: what is read out of headers and bodies.
mod Split
mod Contact
pub mod Routes
mod Tests
unfoldable pub use Split.*
unfoldable pub use Contact.*
