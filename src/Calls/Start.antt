-- ===== src/Calls/Start.antt =====
-- call_manager.py: `start_call`, two steps before and after the await of its connection.
use ha_intratone.Base.{ℕ, Option, none, some, [], ◌∷◌, ◌++◌, not, is_some, if◌then◌else◌}
use ha_intratone.Base.Text.{Text}
use ha_intratone.Sip.Types.{Client, Libs}
use ha_intratone.Sip.Client.{init, connection_made, call}
use ha_intratone.Sip.Client.Api.{Dial}
use ha_intratone.Calls.Manager.{Manager, bridge_prewarm, close_pending_sockets}

-- What `start_call` is given, and the sockets that it could bind.
pub record Ring : Type 0 where
  pub target_uri : Text
  pub sip_username : Text
  pub sip_password : Text
  pub monotonic_ns : ℕ
  pub rtp_socket : Option ℕ
  pub rtp_pair : Option (ℕ × ℕ)

-- What `start_call` returns or raises.
pub data Outcome : Type 0 where
  placed : Text → Outcome
  refused raised : Outcome

-- What `start_call` keeps while it awaits the connection.
pub record Waiting : Type 0 where
  pub asked : Ring
  pub rtp_port : ℕ
  pub video_rtp_port : Option ℕ

-- `start_call` up to the await of `create_connection`: it is over, or it waits.
pub data Begun : Type 0 where
  returned : Outcome → Begun
  connecting : Waiting → Begun

unfoldable pub bind_video : Ring → ℕ → Option (ℕ × ℕ) → Manager → Begun × Manager
bind_video r rtp none m = (returned raised, m)
bind_video r rtp (some (v, c)) m = (
  connecting (record { asked = r; rtp_port = rtp; video_rtp_port = some v }),
  record m {
    bound = m.bound ++ v ∷ c ∷ [];
    pending_video_rtp_socket = some v;
    pending_video_rtcp_socket = some c;
  },
)

unfoldable pub bind_audio : Ring → Option ℕ → Manager → Begun × Manager
unfolding bind_video
bind_audio r none m = (returned raised, m)
bind_audio r (some rtp) m =
    let m' = record m { bound = m.bound ++ rtp ∷ []; pending_rtp_socket = some rtp } in
    if m.video_enabled
    then bind_video r rtp r.rtp_pair m'
    else (connecting (record { asked = r; rtp_port = rtp; video_rtp_port = none }), m')

-- `start_call`, first step.
unfoldable pub start_call_begins : Ring → Manager → Begun × Manager
unfolding bind_audio
start_call_begins r m =
    if not m.started
    then (returned refused, m)
    else if is_some m.active_call_id
    then (returned refused, m)
    else bind_audio r r.rtp_socket m

abbrev pub dial_of : Waiting → Dial
dial_of w = record {
  target_uri = w.asked.target_uri;
  local_rtp_port = w.rtp_port;
  sip_username = w.asked.sip_username;
  sip_password = w.asked.sip_password;
  local_video_rtp_port = w.video_rtp_port;
  monotonic_ns = w.asked.monotonic_ns;
}

-- After `sip_client.call`, which may raise.
unfoldable pub dialled : Option ℕ → Option (Text × Client) → Manager → Outcome × Manager
unfolding close_pending_sockets
dialled video none m = (raised, record (close_pending_sockets m) { sip_client = none })
dialled video (some (id, c)) m = (
  placed id,
  record m {
    sip_client = some c;
    active_call_id = some id;
    max_duration_task = some id;
    effects = m.effects ++ (if is_some video then bridge_prewarm ∷ [] else []);
  },
)

-- `start_call`, second step: the connection was made, with its local port, or it failed. The manager
-- is the one of that moment.
unfoldable pub start_call_resumes : Libs → Waiting → Option (Option ℕ) → Manager → Outcome × Manager
unfolding close_pending_sockets dialled
start_call_resumes libs w none m = (refused, close_pending_sockets m)
start_call_resumes libs w (some port) m =
    dialled w.video_rtp_port (call libs (dial_of w) (connection_made port (init m.local_host))) m
