-- ===== src/Calls/Manager.antt =====
-- call_manager.py: the state of `CallManager` and its operations but for `start_call` and
-- `_spawn_bridge`.
use ha_intratone.Base.{
  ℕ, Bool, true, false, Option, none, some, List, [], ◌∷◌, ◌++◌, ◌>>=◌, drop, length, is_some,
  if◌then◌else◌,
}
use ha_intratone.Base.Text.{Text, text_eq}
use ha_intratone.Sip.Types.{CallEstablished, Event, call_established, call_terminated, Client, Libs}
use ha_intratone.Sip.Client.{
  send_open_door, send_mute_off, send_backlight, send_reinvite_audio_only, hang_up,
}

-- What the manager asks of the bridge and tells its owner, in order.
pub data Effect : Type 0 where
  bridge_prewarm bridge_cancel_prewarm bridge_stop : Effect
  bridge_start : CallEstablished → List ℕ → Effect
  call_active : Text → Text → Effect
  call_ended : Text → Effect

-- `_spawn_bridge`, before it has run and while it awaits `AudioBridge.start`.
pub data Spawn : Type 0 where
  scheduled starting : CallEstablished → Spawn

-- The fields. A socket is its port; a task that has run or was cancelled is `none`; `_sip_transport`
-- is the transport of the client. `bound`, `closed_sockets` and `handed` list the sockets that were
-- bound, closed here, and passed to the bridge.
pub record Manager : Type 0 where
  pub local_host : Text
  pub video_enabled : Bool
  pub started : Bool
  pub sip_client : Option Client
  pub active_call_id : Option Text
  pub pending_rtp_socket : Option ℕ
  pub pending_video_rtp_socket : Option ℕ
  pub pending_video_rtcp_socket : Option ℕ
  pub max_duration_task : Option Text
  pub grace_task : Option Text
  pub spawn_bridge_task : Option Spawn
  pub bound : List ℕ
  pub closed_sockets : List ℕ
  pub handed : List ℕ
  pub effects : List Effect

-- `__init__`
unfoldable pub new_manager : Text → Bool → Manager
new_manager host video = record {
  local_host = host;
  video_enabled = video;
  started = false;
  sip_client = none;
  active_call_id = none;
  pending_rtp_socket = none;
  pending_video_rtp_socket = none;
  pending_video_rtcp_socket = none;
  max_duration_task = none;
  grace_task = none;
  spawn_bridge_task = none;
  bound = [];
  closed_sockets = [];
  handed = [];
  effects = [];
}

-- `async_start`
unfoldable pub async_start : Manager → Manager
async_start m = record m { started = true }

-- The socket, if there is one.
abbrev pub those : Option ℕ → List ℕ
those none = []
those (some p) = p ∷ []

-- The sockets that were bound and not yet passed on.
abbrev pub pending : Manager → List ℕ
pending m =
    those m.pending_rtp_socket
    ++ (those m.pending_video_rtp_socket ++ those m.pending_video_rtcp_socket)

-- `_close_pending_sockets`
unfoldable pub close_pending_sockets : Manager → Manager
close_pending_sockets m = record m {
  closed_sockets = m.closed_sockets ++ pending m;
  pending_rtp_socket = none;
  pending_video_rtp_socket = none;
  pending_video_rtcp_socket = none;
}

-- `id == self._active_call_id`
abbrev pub is_active : Text → Option Text → Bool
is_active id none = false
is_active id (some a) = text_eq id a

-- `_handle_call_established`
unfoldable pub handle_call_established : CallEstablished → Manager → Manager
handle_call_established info m =
    if is_active info.call_id m.active_call_id
    then record m { spawn_bridge_task = some (scheduled info) }
    else m

-- `_handle_call_terminated`
unfoldable pub handle_call_terminated : Text → Manager → Manager
unfolding close_pending_sockets
handle_call_terminated id m =
    if is_active id m.active_call_id
    then record (close_pending_sockets m) {
      max_duration_task = none;
      sip_client = none;
      grace_task = some id;
      effects = m.effects ++ bridge_cancel_prewarm ∷ [];
    }
    else m

-- The client's callbacks, in their order.
unfoldable pub notify : List Event → Manager → Manager
unfolding handle_call_established handle_call_terminated
notify [] m = m
notify (call_established info ∷ es) m = notify es (handle_call_established info m)
notify (call_terminated id ∷ es) m = notify es (handle_call_terminated id m)

-- Something happens in the client: its new events come back as callbacks. `none` is an exception.
unfoldable pub client_does : (Client → Option Client) → Client → Manager → Option Manager
unfolding notify
client_does f c m = f c >>= λ c'.
    some (notify (drop (length c.events) c'.events) (record m { sip_client = some c' }))

unfoldable pub on_client : (Client → Option Client) → Manager → Option Manager
unfolding client_does
on_client f m = elim m.sip_client [ none ↦ some m | some c ↦ client_does f c m ]

-- An in-dialog request of the client, with its answer.
unfoldable pub ask_client :
    (Client → Option (Bool × Client)) → Client → Manager → Option (Bool × Manager)
unfolding notify
ask_client f c m = f c >>= λ p.
    some (p.0, notify (drop (length c.events) p.1.events) (record m { sip_client = some p.1 }))

unfoldable pub ask_active :
    (Text → Client → Option (Bool × Client))
    → Option Text
    → Option Client
    → Manager
    → Option (Bool × Manager)
unfolding ask_client
ask_active f (some id) (some c) m = ask_client (f id) c m
ask_active f none o m = some (false, m)
ask_active f (some id) none m = some (false, m)

-- A request for the active call: refused without a client or a call.
unfoldable pub for_active :
    (Text → Client → Option (Bool × Client)) → Manager → Option (Bool × Manager)
unfolding ask_active
for_active f m = ask_active f m.active_call_id m.sip_client m

-- `send_open_door`, `send_mute_off`, `send_backlight` and `_handle_video_failure`; the last passes
-- over an exception, and a client that raises stays as it is.
unfoldable pub manager_open_door : Libs → Text → Manager → Option (Bool × Manager)
unfolding for_active
manager_open_door libs code m = for_active (λ id c. send_open_door libs id code c) m

unfoldable pub manager_mute_off : Libs → Manager → Option (Bool × Manager)
unfolding for_active
manager_mute_off libs m = for_active (λ id c. send_mute_off libs id c) m

unfoldable pub manager_backlight : Libs → Manager → Option (Bool × Manager)
unfolding for_active
manager_backlight libs m = for_active (λ id c. send_backlight libs id c) m

-- The manager after a request.
abbrev pub manager_of : Option (Bool × Manager) → Option Manager
manager_of none = none
manager_of (some (b, m)) = some m

unfoldable pub or_unchanged : Manager → Option Manager → Manager
or_unchanged m none = m
or_unchanged m (some m') = m'

unfoldable pub handle_video_failure : Libs → Manager → Manager
unfolding for_active or_unchanged
handle_video_failure libs m =
    or_unchanged m (manager_of (for_active (λ id c. send_reinvite_audio_only libs id c) m))

-- `_auto_terminate_after`, when its time is over.
unfoldable pub auto_terminate : Libs → Text → Manager → Option Manager
unfolding on_client
auto_terminate libs id m =
    let m' = record m { max_duration_task = none } in
    if is_active id m.active_call_id then on_client (hang_up libs id) m' else some m'

-- `hang_up`
unfoldable pub bridge_stopped : Manager → Manager
bridge_stopped m = record m { effects = m.effects ++ bridge_stop ∷ [] }

unfoldable pub manager_hang_up : Libs → Manager → Option Manager
unfolding on_client bridge_stopped
manager_hang_up libs m = elim m.active_call_id [
  | none ↦ some m
  | some id ↦
      if is_some m.sip_client
      then (on_client (hang_up libs id) m >>= λ m'. some (bridge_stopped m'))
      else some m
]

-- `_cancel_spawn_bridge_task`; a start that is cancelled unwinds in the bridge.
unfoldable pub cancel_spawn_bridge_task : Manager → Manager
cancel_spawn_bridge_task m = record m { spawn_bridge_task = none }

-- `async_stop`
unfoldable pub async_stop : Manager → Manager
unfolding cancel_spawn_bridge_task close_pending_sockets bridge_stopped
async_stop m = record (close_pending_sockets (bridge_stopped (cancel_spawn_bridge_task m))) {
  sip_client = none;
  active_call_id = none;
  max_duration_task = none;
  grace_task = none;
  started = false;
}

-- `abort_active_call`, after its tasks are cancelled and the client has hung up. A grace task that
-- the hang-up has started is left to find the call superseded.
unfoldable pub aborted : Text → Manager → Manager
unfolding close_pending_sockets cancel_spawn_bridge_task
aborted id m =
    let m' = cancel_spawn_bridge_task (close_pending_sockets m) in
    record m' {
      sip_client = none;
      active_call_id = none;
      effects = m'.effects ++ bridge_stop ∷ call_ended id ∷ [];
    }

unfoldable pub abort_active_call : Libs → Manager → Option Manager
unfolding on_client aborted
abort_active_call libs m = elim m.active_call_id [
  | none ↦ some m
  | some id ↦
      on_client (hang_up libs id) (record m { max_duration_task = none; grace_task = none })
      >>= λ m'. some (aborted id m')
]

-- `_teardown_bridge_after_grace`, when the grace period is over.
unfoldable pub teardown_after_grace : Text → Manager → Manager
teardown_after_grace id m =
    let m' = record m { grace_task = none } in
    if is_active id m.active_call_id
    then record m' {
      active_call_id = none;
      effects = m.effects ++ bridge_stop ∷ call_ended id ∷ [];
    }
    else m'
