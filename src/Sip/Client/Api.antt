-- ===== src/Sip/Client/Api.antt =====
-- sip_client.py: the transport's callbacks and the public methods of the client.
use ha_intratone.Base.{
  ℕ, ◌+◌, Bool, true, false, Option, none, some, [], ◌∷◌, ◌++◌, ◌>>=◌, take, not, get_or, is_some,
  if◌then◌else◌,
}
use ha_intratone.Base.Text.{Text, codes, text_eq, truthy, show, zero_fill, concat}
use ha_intratone.Sip.Types.{
  CallState, inviting, authenticating, confirmed, terminated, PendingCall, Transport, absent,
  active, closing, Client, Libs,
}
use ha_intratone.Sip.Build.{build_invite, build_reinvite, build_message, build_cancel, build_bye}
use ha_intratone.Sip.Client.Wire.{is_live, put_call, send, terminate, draw}

-- `_INITIAL_CSEQ`
abbrev pub initial_cseq : ℕ
initial_cseq = 50

-- `__init__`
unfoldable pub init : Text → Client
init local_host = record {
  local_host = local_host;
  transport = absent;
  call = none;
  sent = [];
  events = [];
  drawn = 0;
}

-- `connection_made`; the argument is the port of the transport's `sockname`.
unfoldable pub connection_made : Option ℕ → Client → Client
connection_made port c = record c { transport = active port }

unfoldable pub end_live_call : Option PendingCall → Client → Client
unfolding is_live terminate
end_live_call none c = c
end_live_call (some call) c = if is_live call.state then terminate call c else c

-- `connection_lost`
unfoldable pub connection_lost : Client → Client
unfolding end_live_call
connection_lost c = record (end_live_call c.call c) { transport = absent }

-- `_local_tcp_port`
unfoldable pub local_tcp_port : Transport → ℕ
local_tcp_port absent = 0
local_tcp_port (active port) = get_or port 0
local_tcp_port (closing port) = get_or port 0

-- The arguments of `call`, and the clock that it reads.
pub record Dial : Type 0 where
  pub target_uri : Text
  pub local_rtp_port : ℕ
  pub sip_username : Text
  pub sip_password : Text
  pub local_video_rtp_port : Option ℕ
  pub monotonic_ns : ℕ

-- The call object of `call`.
unfoldable pub new_call : Libs → Dial → Client → Text → PendingCall
unfolding local_tcp_port
new_call libs d c token = record {
  call_id = concat (
      show d.monotonic_ns
      ∷ zero_fill 10 (show (libs.hex_value (take 8 token)))
      ∷ codes "@"
      ∷ c.local_host
      ∷ []);
  target_uri = d.target_uri;
  local_host = c.local_host;
  local_port = local_tcp_port c.transport;
  local_rtp_port = d.local_rtp_port;
  sip_username = d.sip_username;
  sip_password = d.sip_password;
  via_branch = codes "z9hG4bK-" ++ token;
  from_tag = take 8 token;
  cseq = initial_cseq;
  state = inviting;
  local_video_rtp_port = d.local_video_rtp_port;
  remote_to_header = none;
  remote_target_uri = none;
  route_set = none;
  reinvite_in_progress = false;
}

unfoldable pub place : Libs → Dial → Option PendingCall → Client → Option (Text × Client)
unfolding new_call put_call send
place libs d none c =
    let (token, c') = draw libs c in
    let call = new_call libs d c token in
    do c'' ← send (build_invite libs call none) (put_call call c'); some (call.call_id, c'')
place libs d (some call) c = none

-- `call`, with its two RuntimeErrors.
unfoldable pub call : Libs → Dial → Client → Option (Text × Client)
unfolding place
call libs d c = elim c.transport [
  | absent ↦ none
  | active p ↦ place libs d c.call c
  | closing p ↦ place libs d c.call c
]

abbrev pub is_confirmed : CallState → Bool
is_confirmed confirmed = true
is_confirmed _ = false

-- `bool(call.remote_to_header)`
abbrev pub has_dialog : Option Text → Bool
has_dialog none = false
has_dialog (some to) = truthy to

unfoldable pub message_on :
    Libs → Option PendingCall → Text → Text → Client → Option (Bool × Client)
unfolding put_call send
message_on libs none call_id body c = some (false, c)
message_on libs (some call) call_id body c =
    if not (text_eq call.call_id call_id)
    then some (false, c)
    else if not (is_confirmed call.state)
    then some (false, c)
    else if not (has_dialog call.remote_to_header)
    then some (false, c)
    else do
      let call' = record call { cseq = call.cseq + 1 }
      c' ←
          send (build_message call' (codes "z9hG4bK-" ++ (draw libs c).0) body)
            (put_call call' (draw libs c).1)
      some (true, c')

-- `_send_in_dialog_message`
unfoldable pub send_in_dialog_message : Libs → Text → Text → Client → Option (Bool × Client)
unfolding message_on
send_in_dialog_message libs call_id body c = message_on libs c.call call_id body c

-- `send_open_door`, `send_mute_off` and `send_backlight`.
unfoldable pub send_open_door : Libs → Text → Text → Client → Option (Bool × Client)
unfolding send_in_dialog_message
send_open_door libs call_id code c =
    send_in_dialog_message libs call_id (codes "opendoor:" ++ code) c

unfoldable pub send_mute_off : Libs → Text → Client → Option (Bool × Client)
unfolding send_in_dialog_message
send_mute_off libs call_id c = send_in_dialog_message libs call_id (codes "MUTE_OFF") c

unfoldable pub send_backlight : Libs → Text → Client → Option (Bool × Client)
unfolding send_in_dialog_message
send_backlight libs call_id c = send_in_dialog_message libs call_id (codes "contrast") c

unfoldable pub reinvite_on : Libs → Option PendingCall → Text → Client → Option (Bool × Client)
unfolding put_call send
reinvite_on libs none call_id c = some (false, c)
reinvite_on libs (some call) call_id c =
    if not (text_eq call.call_id call_id)
    then some (false, c)
    else if not (is_confirmed call.state)
    then some (false, c)
    else if not (is_some call.local_video_rtp_port)
    then some (false, c)
    else if call.reinvite_in_progress
    then some (false, c)
    else do
      let call' = record call {
        local_video_rtp_port = none;
        reinvite_in_progress = true;
        cseq = call.cseq + 1;
        via_branch = codes "z9hG4bK-" ++ (draw libs c).0;
      }
      c' ← send (build_reinvite libs call') (put_call call' (draw libs c).1)
      some (true, c')

-- `send_reinvite_audio_only`
unfoldable pub send_reinvite_audio_only : Libs → Text → Client → Option (Bool × Client)
unfolding reinvite_on
send_reinvite_audio_only libs call_id c = reinvite_on libs c.call call_id c

-- The last request of a call: BYE once it is confirmed, CANCEL while it is being set up.
unfoldable pub farewell : Libs → CallState → PendingCall → Client → Option Client
unfolding put_call send
farewell libs confirmed call c =
    let call' = record call { cseq = call.cseq + 1 } in
    let (branch, c') = draw libs c in
    send (build_bye call' (codes "z9hG4bK-" ++ branch)) (put_call call' c')
farewell libs inviting call c = send (build_cancel call) c
farewell libs authenticating call c = send (build_cancel call) c
farewell libs terminated call c = some c

unfoldable pub hang_up_on : Libs → Option PendingCall → Text → Client → Option Client
unfolding farewell terminate
hang_up_on libs none call_id c = some c
hang_up_on libs (some call) call_id c =
    if not (text_eq call.call_id call_id)
    then some c
    else do c' ← farewell libs call.state call c; some (terminate call c')

-- `hang_up`
unfoldable pub hang_up : Libs → Text → Client → Option Client
unfolding hang_up_on
hang_up libs call_id c = hang_up_on libs c.call call_id c
