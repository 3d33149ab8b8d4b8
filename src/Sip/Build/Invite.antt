-- ===== src/Sip/Build/Invite.antt =====
-- sip_client.py: the SDP and the two INVITE builders.
use ha_intratone.Base.{Option, [], ◌∷◌, ◌++◌}
use ha_intratone.Base.Bytes.{Bytes}
use ha_intratone.Base.Text.{Text, codes, or_text, concat, join, show, encode}
use ha_intratone.Sip.Types.{PendingCall, Libs}
use ha_intratone.Sip.Build.Lines.{
  render, crlf, dialog_uri, request_line, via_line, from_line, to_line, angled_target, call_id_line,
  cseq_line, contact_line, user_agent_line, session_expires_line, content_length_line,
  max_forwards_line, route_lines, video_lines, auth_lines,
}
use ha_intratone.Sip.Header.{up_to}

-- `_build_sdp`
unfoldable pub build_sdp : PendingCall → Text
unfolding concat show join up_to video_lines
build_sdp call =
    let session_id = up_to b'@' call.call_id in
    join crlf (
      (codes "v=0"
        ∷ concat (
            codes "o="
            ∷ call.sip_username
            ∷ codes " "
            ∷ session_id
            ∷ codes " "
            ∷ session_id
            ∷ codes " IN IP4 "
            ∷ call.local_host
            ∷ [])
        ∷ codes "s=Intratone Call"
        ∷ (codes "c=IN IP4 " ++ call.local_host)
        ∷ codes "t=0 0"
        ∷ concat (codes "m=audio " ∷ show call.local_rtp_port ∷ codes " RTP/AVP 0 8 101" ∷ [])
        ∷ codes "a=rtpmap:0 PCMU/8000"
        ∷ codes "a=rtpmap:8 PCMA/8000"
        ∷ codes "a=rtpmap:101 telephone-event/8000"
        ∷ codes "a=fmtp:101 0-15"
        ∷ codes "a=ptime:20"
        ∷ codes "a=sendrecv"
        ∷ [])
      ++ video_lines call.local_video_rtp_port
      ++ [] ∷ [])

module _ (libs : Libs) where
  -- `_build_invite`
  unfoldable pub build_invite : PendingCall → Option (Text × Text) → Bytes
  unfolding render build_sdp request_line via_line from_line to_line angled_target call_id_line
      cseq_line contact_line user_agent_line session_expires_line content_length_line
      max_forwards_line auth_lines
  build_invite call auth_header =
      let sdp = encode (build_sdp call) in
      render
        (request_line (codes "INVITE") call.target_uri
            ∷ via_line call call.via_branch
            ∷ max_forwards_line
            ∷ from_line call
            ∷ to_line (angled_target call)
            ∷ call_id_line call.call_id
            ∷ cseq_line call (codes "INVITE")
            ∷ contact_line libs call
            ∷ user_agent_line
            ∷ codes "Allow: INVITE, ACK, CANCEL, BYE, MESSAGE"
            ∷ codes "Supported: timer"
            ∷ session_expires_line
            ∷ codes "Min-SE: 90"
            ∷ codes "Content-Type: application/sdp"
            ∷ auth_lines auth_header
          ++ content_length_line sdp ∷ [] ∷ [])
        sdp

  -- `_build_reinvite`
  unfoldable pub build_reinvite : PendingCall → Bytes
  unfolding render build_sdp request_line via_line from_line to_line angled_target call_id_line
      cseq_line contact_line user_agent_line session_expires_line content_length_line
      max_forwards_line route_lines
  build_reinvite call =
      let sdp = encode (build_sdp call) in
      render
        (request_line (codes "INVITE") (dialog_uri call)
            ∷ via_line call call.via_branch
            ∷ max_forwards_line
            ∷ route_lines call.route_set
          ++ from_line call
            ∷ to_line (or_text call.remote_to_header (angled_target call))
            ∷ call_id_line call.call_id
            ∷ cseq_line call (codes "INVITE")
            ∷ contact_line libs call
            ∷ user_agent_line
            ∷ codes "Allow: INVITE, ACK, CANCEL, BYE, MESSAGE"
            ∷ codes "Supported: timer"
            ∷ session_expires_line
            ∷ codes "Min-SE: 90"
            ∷ codes "Content-Type: application/sdp"
            ∷ content_length_line sdp
            ∷ []
            ∷ [])
        sdp
