-- ===== src/Sip/Protocol.antt =====
-- sip_client.py: what one call goes through, whatever the server and the user do.
pub mod Step
pub mod Received
pub mod Asked
pub mod Runs
pub mod Requests
pub mod Endings
