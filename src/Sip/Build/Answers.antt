-- ===== src/Sip/Build/Answers.antt =====
-- sip_client.py: the 200 OK answers to the server's requests.
use ha_intratone.Base.{[], ◌∷◌, ◌++◌}
use ha_intratone.Base.Bytes.{Bytes}
use ha_intratone.Base.Text.{codes, encode}
use ha_intratone.Sip.Types.{SipMessage, PendingCall, Libs}
use ha_intratone.Sip.Build.Lines.{
  render, header, to_line, call_id_line, contact_line, user_agent_line, session_expires_line,
  content_length_line, vias_of,
}
use ha_intratone.Sip.Build.Invite.{build_sdp}

module _ (libs : Libs) where
  -- The answer of `_handle_reinvite`: every Via of the request, and the SDP as it stands.
  unfoldable pub build_reinvite_answer : PendingCall → SipMessage → Bytes → Bytes
  unfolding render build_sdp to_line call_id_line contact_line user_agent_line session_expires_line
      content_length_line header vias_of
  build_reinvite_answer call msg raw =
      let sdp = encode (build_sdp call) in
      render
        (codes "SIP/2.0 200 OK" ∷ vias_of (libs.via_lines raw)
          ++ (codes "From: " ++ header (codes "from") msg)
            ∷ to_line (header (codes "to") msg)
            ∷ call_id_line (header (codes "call-id") msg)
            ∷ (codes "CSeq: " ++ header (codes "cseq") msg)
            ∷ contact_line libs call
            ∷ user_agent_line
            ∷ codes "Supported: timer"
            ∷ session_expires_line
            ∷ codes "Content-Type: application/sdp"
            ∷ content_length_line sdp
            ∷ []
            ∷ [])
        sdp

  -- `_build_200_for`
  unfoldable pub build_200_for : SipMessage → Bytes → Bytes
  unfolding render to_line call_id_line user_agent_line header vias_of
  build_200_for request raw =
      render
        (codes "SIP/2.0 200 OK" ∷ vias_of (libs.via_lines raw)
          ++ (codes "From: " ++ header (codes "from") request)
            ∷ to_line (header (codes "to") request)
            ∷ call_id_line (header (codes "call-id") request)
            ∷ (codes "CSeq: " ++ header (codes "cseq") request)
            ∷ user_agent_line
            ∷ codes "Content-Length: 0"
            ∷ []
            ∷ [])
        []
