-- ===== src/Sip/Tests.antt =====
-- Runs of the SIP client: a call that is dialled, answered, used and hung up.
use ha_intratone.Base.{
  ℕ, true, false, Option, none, some, List, [], ◌∷◌, ◌++◌, ◌≡◌, ◌≢◌, ◌⊎◌, refl, ◌>>=◌, length, ◌+◌,
  ◌*◌, ◌-◌,
}
use ha_intratone.Base.Bytes.{Bytes}
use ha_intratone.Base.Text.{Text, codes, text_eq, concat, show, zero_fill}
use ha_intratone.Sip.Types.{confirmed, SipMessage, PendingCall, active, Client, Libs}
use ha_intratone.Sip.Client.{
  init, connection_made, call, dispatch, handle_response, send_open_door, send_reinvite_audio_only,
  hang_up, connection_lost,
}
use ha_intratone.Sip.Client.Api.{Dial}
use ha_intratone.Sip.Receive.{Receiver, data_received, frame, find_blank_line}
use ha_intratone.Sip.Receive.Chunks.{data_received-append, data_received_complete}
use ha_intratone.Sip.Protocol.Step.{phase, over, Live, Does}
use ha_intratone.Sip.Client.Response.{code_of}
use ha_intratone.Sip.Protocol.Received.{dispatch-Step}
use ha_intratone.Sip.Protocol.Runs.{
  Input, received, open_door, drop_video, hang, lost, act, run, Told, AllNumeric, call-Told,
}
use ha_intratone.Sip.Protocol.Requests.{
  CanOpen, CanDrop, after_open_door, Refuses, Drops, send_open_door_lem,
  send_reinvite_audio_only_lem,
}

abbrev from_server : Option Text → Option Text → List (Text × Text) → SipMessage
from_server method status headers = record {
  method = method;
  status = status;
  headers = headers;
  body = [];
}

abbrev answer : SipMessage
answer = from_server none (some (codes "200")) (
    (codes "cseq", codes "50 INVITE")
    ∷ (codes "call-id", codes "70000000000@192.0.2.7")
    ∷ (codes "to", codes "<sip:door@192.0.2.1>;tag=a1")
    ∷ [])

abbrev refusal : SipMessage
refusal = from_server none (some (codes "503")) ((codes "cseq", codes "51 MESSAGE") ∷ [])

abbrev goodbye : SipMessage
goodbye =
    from_server (some (codes "BYE")) none ((codes "call-id", codes "70000000000@192.0.2.7") ∷ [])

-- The number that three digits stand for.
abbrev digits : Text → Option ℕ
digits (a ∷ b ∷ d ∷ []) = some ((a - 48) * 100 + (b - 48) * 10 + (d - 48))
digits s = none

abbrev libs : Libs
libs = record {
  content_length = λ b. some 0;
  parse_sip = λ b. some goodbye;
  via_lines = λ b. [];
  record_route_lines = λ b. [];
  rtp_info = λ b. some (codes "192.0.2.1", 40000);
  video_port = λ b. none;
  connection_ip = λ b. none;
  kv_matches = λ b. [];
  md5_hex = λ b. codes "0";
  token_hex = λ n. codes "0011223344556677";
  hex_value = λ t. 0;
  sip_instance = codes "urn:uuid:0";
  int_of = digits;
}

abbrev dial : Dial
dial = record {
  target_uri = codes "sip:door@192.0.2.1";
  local_rtp_port = 16384;
  sip_username = codes "user";
  sip_password = codes "secret";
  local_video_rtp_port = some 16386;
  monotonic_ns = 7;
}

abbrev id : Text
id = codes "70000000000@192.0.2.7"

abbrev inputs : List Input
inputs = received answer [] ∷ open_door id (codes "*") ∷ drop_video id ∷ hang id ∷ lost ∷ []

inputs-AllNumeric : AllNumeric libs inputs
unfolding code_of
inputs-AllNumeric = ((200, refl), (tt, (tt, (tt, (tt, tt)))))

call-Told_example :
    (i : Text) × (c c' : Client) × (call libs dial
        (connection_made (some 5060) (init (codes "192.0.2.7")))
      ≡ some (i, c))
    × (run libs inputs c ≡ some c')
    × Told i c'
call-Told_example = call-Told libs dial (codes "192.0.2.7") (some 5060) inputs inputs-AllNumeric

-- A call that is up.
abbrev talk : PendingCall
talk = record {
  call_id = id;
  target_uri = codes "sip:door@192.0.2.1";
  local_host = codes "192.0.2.7";
  local_port = 5060;
  local_rtp_port = 16384;
  sip_username = codes "user";
  sip_password = codes "secret";
  via_branch = codes "z9hG4bK-1";
  from_tag = codes "11";
  cseq = 50;
  state = confirmed;
  local_video_rtp_port = some 16386;
  remote_to_header = some (codes "<sip:door@192.0.2.1>;tag=a1");
  remote_target_uri = none;
  route_set = none;
  reinvite_in_progress = false;
}

abbrev client : Client
client = record {
  local_host = codes "192.0.2.7";
  transport = active (some 5060);
  call = some talk;
  sent = [];
  events = [];
  drawn = 1;
}

going : phase confirmed ≢ over
unfolding phase
going e = cc

refusal_code : code_of libs refusal ≡ some 503
unfolding code_of
refusal_code = refl

client-Live : Live talk client
client-Live = record { placed = refl; going = going; connected = λ e. cc }

dispatch-Step_example : Does talk client (dispatch libs refusal [] client)
dispatch-Step_example = dispatch-Step libs refusal [] talk client client-Live (503, refusal_code)

-- A status that is no number raises.
abbrev garbled : SipMessage
garbled = from_server none (some (codes "OK")) []

garbled_raises : dispatch libs garbled [] client ≡ none
unfolding dispatch handle_response code_of
garbled_raises = refl

send_open_door_example :
    (CanOpen id talk
      × (send_open_door libs id (codes "*") client
          ≡ some (true, after_open_door libs (codes "*") talk client)))
    ⊎ ((¬ CanOpen id talk) × (send_open_door libs id (codes "*") client ≡ some (false, client)))
send_open_door_example = send_open_door_lem libs id (codes "*") talk client client-Live

send_reinvite_audio_only_example :
    (CanDrop libs id talk client client-Live × Drops libs id talk client client-Live)
    ⊎ ((¬ CanDrop libs id talk client client-Live) × Refuses libs id talk client client-Live)
send_reinvite_audio_only_example = send_reinvite_audio_only_lem libs id talk client client-Live

-- The two halves of a message.
abbrev first_half : Bytes
first_half = codes "BYE" ++ 13 ∷ 10 ∷ 13 ∷ []

abbrev second_half : Bytes
second_half = 10 ∷ 65 ∷ []

abbrev receiver : Receiver
receiver = record { client = client; rx_buf = [] }

data_received-append_example :
    data_received libs (first_half ++ second_half) receiver
    ≡ (data_received libs first_half receiver >>= data_received libs second_half)
data_received-append_example = data_received-append libs first_half second_half receiver

abbrev waiting : Receiver
waiting = record { client = client; rx_buf = first_half }

first_half_waits : data_received libs first_half receiver ≡ some waiting
unfolding data_received frame find_blank_line
first_half_waits = refl

data_received_complete_example : frame libs waiting.rx_buf ≡ none
data_received_complete_example =
    data_received_complete libs first_half receiver waiting first_half_waits

abbrev tally : Option Client → Option (ℕ × ℕ)
tally none = none
tally (some c) = some (length c.events, length c.sent)

abbrev whole_call : Option Client
whole_call = call libs dial (connection_made (some 5060) (init (codes "192.0.2.7"))) >>= λ p.
    run libs inputs p.1

-- The whole call makes its two reports, and sends INVITE, ACK, MESSAGE, the second INVITE and BYE.
two_reports : tally whole_call ≡ some (2, 5)
unfolding call connection_made init run act dispatch text_eq concat show zero_fill send_open_door
    send_reinvite_audio_only hang_up connection_lost
two_reports = refl
