-- ===== src/Sip/Build/Requests.antt =====
-- sip_client.py: the builders of ACK, MESSAGE, CANCEL and BYE.
use ha_intratone.Base.{[], ◌∷◌, ◌++◌, get_or}
use ha_intratone.Base.Bytes.{Bytes}
use ha_intratone.Base.Text.{Text, codes, or_text, encode, lookup}
use ha_intratone.Sip.Types.{SipMessage, PendingCall}
use ha_intratone.Sip.Build.Lines.{
  render, dialog_uri, request_line, via_line, from_line, to_line, angled_target, call_id_line,
  cseq_line, user_agent_line, content_length_line, max_forwards_line, route_lines, none_or,
}

-- `_build_ack`
unfoldable pub build_ack : PendingCall → SipMessage → Text → Bytes
unfolding render request_line via_line from_line to_line angled_target call_id_line cseq_line
    user_agent_line max_forwards_line route_lines
build_ack call response request_uri =
    render
      (request_line (codes "ACK") request_uri
          ∷ via_line call call.via_branch
          ∷ max_forwards_line
          ∷ route_lines call.route_set
        ++ from_line call
          ∷ to_line (get_or (lookup (codes "to") response.headers) (angled_target call))
          ∷ call_id_line call.call_id
          ∷ cseq_line call (codes "ACK")
          ∷ user_agent_line
          ∷ codes "Content-Length: 0"
          ∷ []
          ∷ [])
      []

-- `_build_message`, with its fresh branch.
unfoldable pub build_message : PendingCall → Text → Text → Bytes
unfolding render request_line via_line from_line to_line call_id_line cseq_line user_agent_line
    max_forwards_line route_lines content_length_line none_or
build_message call new_branch body =
    let body_bytes = encode body in
    render
      (request_line (codes "MESSAGE") (dialog_uri call)
          ∷ via_line call new_branch
          ∷ max_forwards_line
          ∷ route_lines call.route_set
        ++ from_line call
          ∷ to_line (none_or call.remote_to_header)
          ∷ call_id_line call.call_id
          ∷ cseq_line call (codes "MESSAGE")
          ∷ user_agent_line
          ∷ codes "Content-Type: text/plain;charset=UTF-8"
          ∷ content_length_line body_bytes
          ∷ []
          ∷ [])
      body_bytes

-- `_build_cancel`
unfoldable pub build_cancel : PendingCall → Bytes
unfolding render request_line via_line from_line to_line angled_target call_id_line cseq_line
    user_agent_line max_forwards_line
build_cancel call =
    render
      (request_line (codes "CANCEL") call.target_uri
        ∷ via_line call call.via_branch
        ∷ max_forwards_line
        ∷ from_line call
        ∷ to_line (angled_target call)
        ∷ call_id_line call.call_id
        ∷ cseq_line call (codes "CANCEL")
        ∷ user_agent_line
        ∷ codes "Content-Length: 0"
        ∷ []
        ∷ [])
      []

-- `_build_bye`, with its fresh branch.
unfoldable pub build_bye : PendingCall → Text → Bytes
unfolding render request_line via_line from_line to_line angled_target call_id_line cseq_line
    user_agent_line max_forwards_line route_lines
build_bye call new_branch =
    render
      (request_line (codes "BYE") (dialog_uri call)
          ∷ via_line call new_branch
          ∷ max_forwards_line
          ∷ route_lines call.route_set
        ++ from_line call
          ∷ to_line (or_text call.remote_to_header (angled_target call))
          ∷ call_id_line call.call_id
          ∷ cseq_line call (codes "BYE")
          ∷ user_agent_line
          ∷ codes "Content-Length: 0"
          ∷ []
          ∷ [])
      []
