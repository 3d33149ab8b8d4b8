-- ===== src/Sip/Client/Ok.antt =====
-- sip_client.py: the 200 OK that establishes the call.
use ha_intratone.Base.{ℕ, zero, suc, Option, none, some, List, [], ◌∷◌, ◌++◌, reverse, ◌>>=◌}
use ha_intratone.Base.Bytes.{Bytes}
use ha_intratone.Base.Text.{Text, codes, or_text, lookup}
use ha_intratone.Sip.Types.{
  SipMessage, CallEstablished, PendingCall, confirmed, call_established, Client, Libs,
}
use ha_intratone.Sip.Header.{
  extract_record_routes, extract_uri_from_contact, extract_video_endpoint,
}
use ha_intratone.Sip.Build.{header, build_ack}
use ha_intratone.Sip.Client.Wire.{put_call, send, terminate}

-- `list(reversed(rr)) if rr else None`
unfoldable pub route_set_of : List Text → Option (List Text)
route_set_of [] = none
route_set_of (r ∷ rs) = some (reverse (r ∷ rs))

-- The dialog state that the 200 OK carries.
unfoldable pub learn_dialog : Libs → PendingCall → SipMessage → Bytes → PendingCall
unfolding route_set_of
learn_dialog libs call msg raw = record call {
  remote_to_header = lookup (codes "to") msg.headers;
  remote_target_uri =
      some (or_text (extract_uri_from_contact (header (codes "contact") msg)) call.target_uri);
  route_set = route_set_of (extract_record_routes libs raw);
}

-- The endpoint is read only where the offer had a video port other than 0.
unfoldable pub offered_video : Libs → Option ℕ → Text → Option (Text × ℕ)
offered_video libs none sdp = none
offered_video libs (some zero) sdp = none
offered_video libs (some (suc port)) sdp = extract_video_endpoint libs sdp

unfoldable pub established : PendingCall → Text → ℕ → Option (Text × ℕ) → CallEstablished
established call ip port none = record {
  call_id = call.call_id;
  remote_rtp_ip = ip;
  remote_rtp_port = port;
  local_rtp_port = call.local_rtp_port;
  remote_video_rtp_ip = none;
  remote_video_rtp_port = none;
  local_video_rtp_port = none;
}
established call ip port (some (video_ip, video_port)) = record {
  call_id = call.call_id;
  remote_rtp_ip = ip;
  remote_rtp_port = port;
  local_rtp_port = call.local_rtp_port;
  remote_video_rtp_ip = some video_ip;
  remote_video_rtp_port = some video_port;
  local_video_rtp_port = call.local_video_rtp_port;
}

-- What follows the ACK: the call is confirmed, or ended if the SDP cannot be parsed.
unfoldable pub confirm : Libs → PendingCall → Text → Option (Text × ℕ) → Client → Client
unfolding put_call established offered_video terminate
confirm libs call sdp none c = terminate call c
confirm libs call sdp (some (ip, port)) c =
    let video = offered_video libs call.local_video_rtp_port sdp in
    let call' = record call { state = confirmed } in
    let c' = put_call call' c in
    record c' { events = c.events ++ call_established (established call' ip port video) ∷ [] }

-- `_handle_ok`. The audio payload type is only logged.
unfoldable pub handle_ok : Libs → PendingCall → SipMessage → Bytes → Client → Option Client
unfolding learn_dialog send confirm
handle_ok libs call msg raw c = do
  let call' = learn_dialog libs call msg raw
  c' ← send (build_ack call' msg (or_text call'.remote_target_uri [])) c
  some (confirm libs call' msg.body (libs.rtp_info msg.body) c')
