-- ===== src/Sip/Build.antt =====
-- sip_client.py: the message builders. A message is its lines, joined by CRLF, and its body.
mod Lines
mod Invite
mod Answers
mod Requests
unfoldable pub use Lines.{render, header, dialog_uri}
unfoldable pub use Invite.{build_sdp, build_invite, build_reinvite}
unfoldable pub use Answers.{build_reinvite_answer, build_200_for}
unfoldable pub use Requests.{build_ack, build_message, build_cancel, build_bye}
