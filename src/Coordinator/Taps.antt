-- ===== src/Coordinator/Taps.antt =====
-- coordinator.py: what the user's taps do (`async_ensure_call_started`, `async_open_door`,
-- `async_toggle_backlight`, `async_wait_for_stream`). A tap is cut at its awaits: of the connection,
-- and of the stream.
use ha_intratone.Base.{
  ℕ, Bool, true, false, Option, none, some, [], ◌∷◌, ◌++◌, ◌>>=◌, ◌==◌, not, is_some, ◌||◌,
  if◌then◌else◌,
}
use ha_intratone.Base.Text.{Text}
use ha_intratone.Sip.Types.{Libs}
use ha_intratone.Calls.Manager.{Manager, manager_open_door, manager_backlight}
use ha_intratone.Calls.Start.{
  Ring, Outcome, placed, refused, raised, Waiting, Begun, returned, connecting, start_call_begins,
  start_call_resumes,
}
use ha_intratone.Coordinator.State.{Ringing, PendingInvite, Coordinator, manager_changed}

-- What the network and the clock give to a call.
pub record Network : Type 0 where
  pub monotonic_ns : ℕ
  pub rtp_socket : Option ℕ
  pub rtp_pair : Option (ℕ × ℕ)
  pub connection : Option (Option ℕ)

abbrev pub ring_of : PendingInvite → Network → Ring
ring_of p n = record {
  target_uri = p.target_uri;
  sip_username = p.sip_username;
  sip_password = p.sip_password;
  monotonic_ns = n.monotonic_ns;
  rtp_socket = n.rtp_socket;
  rtp_pair = n.rtp_pair;
}

-- `if not pending.answer_called: ... await self.api.answer_call(...)`, whose result is only logged.
unfoldable pub answer_once : PendingInvite → Coordinator → Coordinator
answer_once p c = if p.answer_called then c else record c {
  pending = some (record p { answer_called = true });
  answered = c.answered ++ p.fcm_call_id ∷ [];
}

-- After `start_call`.
unfoldable pub call_tried : PendingInvite → Outcome → Coordinator → Bool × Coordinator
unfolding answer_once
call_tried p (placed id) c =
    let started = record p { started = true } in
    (true, answer_once started (record c { pending = some started; active_sip_call_id = some id }))
call_tried p refused c =
    (false, record c { pending = some (record p { started = false }); active_sip_call_id = none })
call_tried p raised c = (false, record c { pending = some (record p { started = false }) })

-- What `async_ensure_call_started` keeps while `start_call` waits: its invite, with the number of the
-- ring that it belongs to.
pub record Placing : Type 0 where
  pub ring_seq : ℕ
  pub invite : PendingInvite
  pub start : Waiting

-- The first step of a tap: it has its answer, or `start_call` waits for the connection.
pub data Tapped : Type 0 where
  settled : Bool → Tapped
  placing : Placing → Tapped

unfoldable pub ensure_with :
    PendingInvite → Manager → Begun × Manager → Coordinator → Tapped × Coordinator
unfolding call_tried manager_changed
ensure_with p m (returned outcome, m') c =
    let r = call_tried p outcome (manager_changed m m' c) in (settled r.0, r.1)
ensure_with p m (connecting w, m') c = (
  placing (record { ring_seq = c.ring_seq; invite = p; start = w }),
  record (manager_changed m m' c) { pending = some p },
)

unfoldable pub ensure_begins_of :
    Network → Option PendingInvite → Option Manager → Coordinator → Tapped × Coordinator
unfolding ensure_with
ensure_begins_of n (some p) (some m) c =
    if p.started
    then (settled true, c)
    else ensure_with (record p { started = true }) m (start_call_begins (ring_of p n) m) c
ensure_begins_of n none o c = (settled false, c)
ensure_begins_of n (some p) none c = (settled false, c)

-- `async_ensure_call_started`, first step.
unfoldable pub ensure_begins : Network → Coordinator → Tapped × Coordinator
unfolding ensure_begins_of
ensure_begins n c = ensure_begins_of n c.pending c.call_manager c

-- The pending invite, if it is still that of the ring with this number.
unfoldable pub current : ℕ → Option PendingInvite → ℕ → Option PendingInvite
current seq none now = none
current seq (some p) now = if now == seq then some p else none

-- `call_tried` for an invite that was replaced meanwhile changes nothing of the pending one.
unfoldable pub tried_on :
    Placing → Option PendingInvite → Outcome → Coordinator → Bool × Coordinator
unfolding call_tried
tried_on w (some p) outcome c = call_tried p outcome c
tried_on w none outcome c =
    let r = call_tried w.invite outcome c in (r.0, record r.1 { pending = c.pending })

unfoldable pub ensure_resumes_of :
    Libs → Placing → Option (Option ℕ) → Option Manager → Coordinator → Bool × Coordinator
unfolding tried_on current manager_changed
ensure_resumes_of libs w o none c = (false, c)
ensure_resumes_of libs w o (some m) c =
    let (outcome, m') = start_call_resumes libs w.start o m in
    tried_on w (current w.ring_seq c.pending c.ring_seq) outcome (manager_changed m m' c)

-- `async_ensure_call_started`, second step: the connection was made, or it failed.
unfoldable pub ensure_resumes :
    Libs → Placing → Option (Option ℕ) → Coordinator → Bool × Coordinator
unfolding ensure_resumes_of
ensure_resumes libs w o c = ensure_resumes_of libs w o c.call_manager c

unfoldable pub ensure_resumed : Libs → Option (Option ℕ) → Tapped × Coordinator → Bool × Coordinator
unfolding ensure_resumes
ensure_resumed libs o (settled ok, c) = (ok, c)
ensure_resumed libs o (placing w, c) = ensure_resumes libs w o c

-- `async_ensure_call_started` where nothing else happens while it waits.
unfoldable pub ensure_call_started : Libs → Network → Coordinator → Bool × Coordinator
unfolding ensure_begins ensure_resumed
ensure_call_started libs n c = ensure_resumed libs n.connection (ensure_begins n c)

abbrev pub url_of : Option Ringing → Option Text
url_of none = none
url_of (some d) = d.stream_url

unfoldable pub stream_of : Option PendingInvite → Bool → Coordinator → Option Text
stream_of none timed_out c = url_of c.ringing
stream_of (some p) timed_out c = if timed_out then none else url_of c.ringing

-- `async_wait_for_stream`, by the invite at its beginning, whether the wait timed out, and the state
-- at its end.
unfoldable pub wait_for_stream : Coordinator → Bool → Coordinator → Option Text
unfolding stream_of
wait_for_stream before timed_out c = stream_of before.pending timed_out c

unfoldable pub tap_of : Network → Option PendingInvite → Coordinator → Tapped × Coordinator
unfolding ensure_begins
tap_of n none c = (settled false, c)
tap_of n (some p) c = if p.started then (settled true, c) else ensure_begins n c

-- `async_open_door` and `async_toggle_backlight` up to the await of the connection; the call is then
-- started by `ensure_resumes`.
unfoldable pub tap_begins : Network → Coordinator → Tapped × Coordinator
unfolding tap_of
tap_begins n c =
    if not (is_some c.ringing) || not (is_some c.call_manager)
    then (settled false, c)
    else tap_of n c.pending c

unfoldable pub door_of :
    Libs → Option Ringing → Option Manager → Coordinator → Option (Bool × Coordinator)
unfolding manager_changed
door_of libs (some d) (some m) c =
    manager_open_door libs d.door_code m >>= λ p. some (p.0, manager_changed m p.1 c)
door_of libs none o c = some (false, c)
door_of libs (some d) none c = some (false, c)

-- `async_open_door` after its waits.
unfoldable pub door_opens : Libs → Coordinator → Option (Bool × Coordinator)
unfolding door_of
door_opens libs c = door_of libs c.ringing c.call_manager c

unfoldable pub backlight_of :
    Libs → Option Ringing → Option Manager → Coordinator → Option (Bool × Coordinator)
unfolding manager_changed
backlight_of libs (some d) (some m) c =
    manager_backlight libs m >>= λ p. some (p.0, manager_changed m p.1 c)
backlight_of libs none o c = some (false, c)
backlight_of libs (some d) none c = some (false, c)

-- `async_toggle_backlight` after its waits.
unfoldable pub backlight_toggles : Libs → Coordinator → Option (Bool × Coordinator)
unfolding backlight_of
backlight_toggles libs c = backlight_of libs c.ringing c.call_manager c
