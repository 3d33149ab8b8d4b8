-- ===== src/Calls/Bridge.antt =====
-- call_manager.py: `_spawn_bridge`, up to and after the await of `AudioBridge.start`.
use ha_intratone.Base.{
  ℕ, Bool, Option, none, some, List, [], ◌∷◌, ◌++◌, ◌>>=◌, not, is_some, if◌then◌else◌, ◌&&◌, ◌||◌,
}
use ha_intratone.Base.Text.{Text}
use ha_intratone.Sip.Types.{CallEstablished, Libs}
use ha_intratone.Sip.Client.{hang_up}
use ha_intratone.Calls.Manager.{
  Manager, bridge_start, call_active, Spawn, scheduled, starting, those, is_active, on_client,
  bridge_stopped, manager_of, manager_mute_off,
}

-- The pending sockets are taken out of the fields.
unfoldable pub taken : Manager → Manager
taken m = record m {
  pending_rtp_socket = none;
  pending_video_rtp_socket = none;
  pending_video_rtcp_socket = none;
}

-- `AudioBridge.start` is called with these sockets, which it owns from now on.
unfoldable pub start_with : CallEstablished → List ℕ → Manager → Manager
start_with info socks m = record m {
  spawn_bridge_task = some (starting info);
  handed = m.handed ++ socks;
  effects = m.effects ++ bridge_start info socks ∷ [];
}

-- `video` are the video sockets: closed where there is no audio socket, and where the answer has no
-- video port while there is a video socket (`unused`).
unfoldable pub spawn_with :
    Libs → CallEstablished → Option ℕ → Bool → List ℕ → Manager → Option Manager
unfolding start_with on_client
spawn_with libs info none unused video m =
    on_client (hang_up libs info.call_id)
      (record m { spawn_bridge_task = none; closed_sockets = m.closed_sockets ++ video })
spawn_with libs info (some rtp) unused video m =
    if unused
    then some (start_with info (rtp ∷ []) (record m { closed_sockets = m.closed_sockets ++ video }))
    else some (start_with info (rtp ∷ video) m)

unfoldable pub spawn_of : Libs → Option Spawn → Manager → Option Manager
unfolding taken spawn_with
spawn_of libs none m = some m
spawn_of libs (some (starting info)) m = some m
spawn_of libs (some (scheduled info)) m =
    spawn_with libs info m.pending_rtp_socket
      (not (is_some info.remote_video_rtp_port) && is_some m.pending_video_rtp_socket)
      (those m.pending_video_rtp_socket ++ those m.pending_video_rtcp_socket) (taken m)

-- The scheduled task runs to its await.
unfoldable pub spawn_bridge : Libs → Manager → Option Manager
unfolding spawn_of
spawn_bridge libs m = spawn_of libs m.spawn_bridge_task m

-- What `AudioBridge.start` comes back with: the URL, a BridgeStoppedError or another exception.
pub data Started : Type 0 where
  up : Text → Started
  stopped failed : Started

unfoldable pub started_of : Libs → Started → Option Spawn → Manager → Option Manager
unfolding on_client bridge_stopped manager_mute_off
started_of libs s none m = some m
started_of libs s (some (scheduled info)) m = some m
started_of libs stopped (some (starting info)) m = some (record m { spawn_bridge_task = none })
started_of libs failed (some (starting info)) m =
    on_client (hang_up libs info.call_id) (record m { spawn_bridge_task = none })
started_of libs (up url) (some (starting info)) m =
    let m' = record m { spawn_bridge_task = none } in
    if not m.started || not (is_active info.call_id m.active_call_id)
    then some (bridge_stopped m')
    else (manager_of (manager_mute_off libs m') >>= λ m''.
        some (record m'' { effects = m''.effects ++ call_active info.call_id url ∷ [] }))

-- The task goes on after its await.
unfoldable pub bridge_started : Libs → Started → Manager → Option Manager
unfolding started_of
bridge_started libs s m = started_of libs s m.spawn_bridge_task m
