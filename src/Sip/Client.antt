-- ===== src/Sip/Client.antt =====
-- sip_client.py: `IntratoneSipClient`. A method is a function on the client; `none` is an
-- exception that it raises.
pub mod Wire
pub mod Ok
pub mod Response
pub mod Dispatch
pub mod Api
unfoldable pub use Wire.{is_live, put_call, send, terminate}
unfoldable pub use Ok.{handle_ok}
unfoldable pub use Response.{handle_auth_challenge, handle_response}
unfoldable pub use Dispatch.{dispatch}
unfoldable pub use Api.{
  init, connection_made, connection_lost, call, send_open_door, send_mute_off, send_backlight,
  send_reinvite_audio_only, hang_up,
}
