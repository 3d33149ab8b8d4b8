-- ===== src/Sip/Types.antt =====
-- sip_client.py: the data of the SIP client.
use ha_intratone.Base.{ℕ, Bool, Option, List}
use ha_intratone.Base.Bytes.{Bytes}
use ha_intratone.Base.Text.{Text}

pub data CallState : Type 0 where
  inviting authenticating confirmed terminated : CallState

-- What `voip_utils.sip.SipMessage.parse_sip` returns: a response has no method. The header names
-- are in lower case; `status` is its `code`, the text of the status code.
pub record SipMessage : Type 0 where
  pub method : Option Text
  pub status : Option Text
  pub headers : List (Text × Text)
  pub body : Text

-- The `CallEstablished` event.
pub record CallEstablished : Type 0 where
  pub call_id : Text
  pub remote_rtp_ip : Text
  pub remote_rtp_port : ℕ
  pub local_rtp_port : ℕ
  pub remote_video_rtp_ip : Option Text
  pub remote_video_rtp_port : Option ℕ
  pub local_video_rtp_port : Option ℕ

-- `_PendingCall`
pub record PendingCall : Type 0 where
  pub call_id : Text
  pub target_uri : Text
  pub local_host : Text
  pub local_port : ℕ
  pub local_rtp_port : ℕ
  pub sip_username : Text
  pub sip_password : Text
  pub via_branch : Text
  pub from_tag : Text
  pub cseq : ℕ
  pub state : CallState
  pub local_video_rtp_port : Option ℕ
  pub remote_to_header : Option Text
  pub remote_target_uri : Option Text
  pub route_set : Option (List Text)
  pub reinvite_in_progress : Bool

-- The calls of the two callbacks, in their order.
pub data Event : Type 0 where
  call_established : CallEstablished → Event
  call_terminated : Text → Event

-- `_transport`: absent, open or closing. `sockname` is the local port that it reports.
pub data Transport : Type 0 where
  absent : Transport
  active : Option ℕ → Transport
  closing : Option ℕ → Transport

-- `IntratoneSipClient`, without the receive buffer: the fields, what was written to the
-- transport, the callbacks made, and how many random tokens were drawn.
pub record Client : Type 0 where
  pub local_host : Text
  pub transport : Transport
  pub call : Option PendingCall
  pub sent : List Bytes
  pub events : List Event
  pub drawn : ℕ

-- The code that the client calls and does not contain: the regular expressions (each as what its
-- use returns), `voip_utils`, `hashlib`, `secrets` and the process's instance id.
pub record Libs : Type 0 where
  -- `int(s)`: `none` where it raises; a negative number, which is below 200 too, is given as 0
  pub int_of : Text → Option ℕ
  -- `_CONTENT_LENGTH_RE.search` on a header block
  pub content_length : Bytes → Option ℕ
  -- `SipMessage.parse_sip` on one message; `none` is an exception
  pub parse_sip : Bytes → Option SipMessage
  -- `_VIA_RE.finditer` and `_RECORD_ROUTE_RE.findall` on a message
  pub via_lines : Bytes → List Text
  pub record_route_lines : Bytes → List Text
  -- `get_rtp_info` on a body; `none` is an exception
  pub rtp_info : Text → Option (Text × ℕ)
  -- `_M_VIDEO_RE.search` and `_SDP_CONN_IP_RE.search`
  pub video_port : Text → Option ℕ
  pub connection_ip : Text → Option Text
  -- `_KV_PATTERN.finditer` of digest_auth.py: key and value of each match
  pub kv_matches : Text → List (Text × Text)
  -- `hashlib.md5(...).hexdigest()`
  pub md5_hex : Bytes → Text
  -- the n-th token of `secrets.token_hex(8)`, and `int(token[:8], 16)` of it
  pub token_hex : ℕ → Text
  pub hex_value : Text → ℕ
  -- `_SIP_INSTANCE`
  pub sip_instance : Text
