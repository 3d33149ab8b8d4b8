-- ===== src/Calls/Shutdown.antt =====
-- call_manager.py: every step of the manager, and what is left of its sockets when it stops.
use ha_intratone.Base.{ℕ, Option, none, some, ◌≡◌, ◌≢◌}
use ha_intratone.Base.Text.{Text}
use ha_intratone.Sip.Types.{Client, Libs}
use ha_intratone.Calls.Manager.{
  Manager, async_start, on_client, manager_open_door, manager_of, manager_mute_off,
  manager_backlight, handle_video_failure, auto_terminate, manager_hang_up, async_stop,
  abort_active_call, teardown_after_grace,
}
use ha_intratone.Calls.Start.{Ring, Waiting, start_call_begins, start_call_resumes}
use ha_intratone.Calls.Bridge.{spawn_bridge, Started, bridge_started}
use ha_intratone.Calls.Life.{Fresh, waiting_of}

-- What can happen to the manager but for `start_call`. `in_client` is anything that happens in its SIP client, such as
-- received data.
pub data Op : Type 0 where
  start stop mute_off backlight video_failure hang abort grace_over spawned : Op
  in_client : (Client → Option Client) → Op
  open_door too_long : Text → Op
  bridge : Started → Op

-- The grace task ends, if there is one.
unfoldable pub after_grace : Option Text → Manager → Manager
unfolding teardown_after_grace
after_grace none m = m
after_grace (some id) m = teardown_after_grace id m

-- `none` is an exception.
unfoldable pub step : Libs → Op → Manager → Option Manager
unfolding after_grace
step libs start m = some (async_start m)
step libs stop m = some (async_stop m)
step libs mute_off m = manager_of (manager_mute_off libs m)
step libs backlight m = manager_of (manager_backlight libs m)
step libs video_failure m = some (handle_video_failure libs m)
step libs hang m = manager_hang_up libs m
step libs abort m = abort_active_call libs m
step libs grace_over m = some (after_grace m.grace_task m)
step libs spawned m = spawn_bridge libs m
step libs (in_client f) m = on_client f m
step libs (open_door code) m = manager_of (manager_open_door libs code m)
step libs (too_long id) m = auto_terminate libs id m
step libs (bridge s) m = bridge_started libs s m

-- A sequence of steps without an exception that leaves the manager and, if one waits for its
-- connection, the start. A start begins while no other one waits and finds a free pair of video
-- ports; anything else may happen while it waits. When it goes on, its call's id is not that of a
-- call in its grace period. It is not cancelled while it waits.
pub data Runs (libs : Libs) (m : Manager) : Manager → Option Waiting → Type 0 where
  here : Runs libs m m none
  next :
      {m₁ m₂ : Manager} {w : Option Waiting} (op : Op)
      → Runs libs m m₁ w
      → step libs op m₁ ≡ some m₂
      → Runs libs m m₂ w
  begins :
      {m₁ : Manager} (r : Ring)
      → Runs libs m m₁ none
      → r.rtp_pair ≢ none
      → Runs libs m (start_call_begins r m₁).1 (waiting_of (start_call_begins r m₁).0)
  resumes :
      {m₁ : Manager} {w : Waiting} (o : Option (Option ℕ))
      → Runs libs m m₁ (some w)
      → Fresh (start_call_resumes libs w o m₁).0 m₁.grace_task
      → Runs libs m (start_call_resumes libs w o m₁).1 none
