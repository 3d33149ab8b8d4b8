-- ===== src/Sip/Build/Lines.antt =====
-- sip_client.py: the lines that the message builders share.
use ha_intratone.Base.{ℕ, Option, none, some, List, [], ◌∷◌, ◌++◌, length, get_or}
use ha_intratone.Base.Bytes.{Bytes}
use ha_intratone.Base.Text.{Text, codes, or_text, concat, join, show, encode, lookup}
use ha_intratone.Sip.Types.{SipMessage, PendingCall, Libs}

-- `_CRLF`
abbrev pub crlf : Text
crlf = 13 ∷ 10 ∷ []

-- `(_CRLF.join(lines) + _CRLF).encode("utf-8") + body`
unfoldable pub render : List Text → Bytes → Bytes
unfolding join encode
render lines body = encode (join crlf lines ++ crlf) ++ body

-- `_USER_AGENT`
abbrev pub user_agent : Text
user_agent = codes "AndroidPhone/2.6.0 (belle-sip/5.4.100)"

-- `_SESSION_EXPIRES_S`
abbrev pub session_expires_s : ℕ
session_expires_s = 1800

-- `msg.headers.get(name, "")`
unfoldable pub header : Text → SipMessage → Text
header name msg = get_or (lookup name msg.headers) []

-- `call.remote_target_uri or call.target_uri`
abbrev pub dialog_uri : PendingCall → Text
dialog_uri call = or_text call.remote_target_uri call.target_uri

-- The lines that several builders share.
unfoldable pub request_line : Text → Text → Text
unfolding concat
request_line method uri = concat (method ∷ codes " " ∷ uri ∷ codes " SIP/2.0" ∷ [])

unfoldable pub via_line : PendingCall → Text → Text
unfolding concat show
via_line call branch = concat (
    codes "Via: SIP/2.0/TCP "
    ∷ call.local_host
    ∷ codes ":"
    ∷ show call.local_port
    ∷ codes ";branch="
    ∷ branch
    ∷ codes ";rport"
    ∷ [])

unfoldable pub from_line : PendingCall → Text
unfolding concat
from_line call = concat (
    codes "From: <sip:"
    ∷ call.sip_username
    ∷ codes "@"
    ∷ call.local_host
    ∷ codes ">;tag="
    ∷ call.from_tag
    ∷ [])

unfoldable pub to_line : Text → Text
to_line to = codes "To: " ++ to

-- `<{call.target_uri}>`
unfoldable pub angled_target : PendingCall → Text
unfolding concat
angled_target call = concat (codes "<" ∷ call.target_uri ∷ codes ">" ∷ [])

unfoldable pub call_id_line : Text → Text
call_id_line call_id = codes "Call-ID: " ++ call_id

unfoldable pub cseq_line : PendingCall → Text → Text
unfolding concat show
cseq_line call method = concat (codes "CSeq: " ∷ show call.cseq ∷ codes " " ∷ method ∷ [])

unfoldable pub contact_line : Libs → PendingCall → Text
unfolding concat show
contact_line libs call = concat (
    codes "Contact: <sip:"
    ∷ call.sip_username
    ∷ codes "@"
    ∷ call.local_host
    ∷ codes ":"
    ∷ show call.local_port
    ∷ codes ";transport=tcp>;+sip.instance="
    ∷ libs.sip_instance
    ∷ [])

unfoldable pub user_agent_line : Text
user_agent_line = codes "User-Agent: " ++ user_agent

unfoldable pub session_expires_line : Text
unfolding concat show
session_expires_line =
    concat (codes "Session-Expires: " ∷ show session_expires_s ∷ codes ";refresher=uas" ∷ [])

unfoldable pub content_length_line : Bytes → Text
unfolding show
content_length_line body = codes "Content-Length: " ++ show (length body)

unfoldable pub max_forwards_line : Text
max_forwards_line = codes "Max-Forwards: 70"

-- `for r in call.route_set: lines.append(f"Route: {r}")`
unfoldable pub routes_of : List Text → List Text
routes_of [] = []
routes_of (r ∷ rs) = (codes "Route: " ++ r) ∷ routes_of rs

unfoldable pub route_lines : Option (List Text) → List Text
unfolding routes_of
route_lines none = []
route_lines (some rs) = routes_of rs

unfoldable pub video_lines : Option ℕ → List Text
unfolding concat show
video_lines none = []
video_lines (some port) =
    concat (codes "m=video " ∷ show port ∷ codes " RTP/AVP 96" ∷ [])
    ∷ codes "a=rtpmap:96 VP8/90000"
    ∷ codes "a=sendrecv"
    ∷ []

-- `if auth_header: head_lines.append(...)`
unfoldable pub auth_lines : Option (Text × Text) → List Text
unfolding concat
auth_lines none = []
auth_lines (some (name, value)) = concat (name ∷ codes ": " ∷ value ∷ []) ∷ []

-- `lines.extend(f"Via: {v}" for v in via_headers)`
unfoldable pub vias_of : List Text → List Text
vias_of [] = []
vias_of (v ∷ vs) = (codes "Via: " ++ v) ∷ vias_of vs

-- An f-string writes a missing `remote_to_header` as `None`.
unfoldable pub none_or : Option Text → Text
none_or none = codes "None"
none_or (some s) = s
