-- ===== src/Coordinator/Push.antt =====
-- coordinator.py: the push messages (`async_handle_push`, `_async_handle_call_cancel`).
use ha_intratone.Base.{
  ℕ, ◌+◌, Bool, false, Option, none, some, List, [], ◌∷◌, ◌>>=◌, not, is_some, get_or,
  if◌then◌else◌, ◌&&◌, ◌||◌,
}
use ha_intratone.Base.Text.{Text, codes, text_eq, truthy, or_else, lookup, concat}
use ha_intratone.Sip.Types.{Libs}
use ha_intratone.Calls.Manager.{Manager, abort_active_call}
use ha_intratone.Coordinator.State.{
  Seconds, positive, not_positive, Ringing, PendingInvite, Coordinator, async_set_updated_data,
  drop_pending, manager_changed,
}

-- A push: its keys and values.
abbrev pub Payload : Type 0
Payload = List (Text × Text)

-- `payload.get(key) or ""`
unfoldable pub field : Payload → Text → Text
field payload key = get_or (lookup key payload) []

-- `payload.get(key) == value`
abbrev pub opt_is : Option Text → Text → Bool
opt_is none v = false
opt_is (some s) v = text_eq s v

-- `_parse_seconds`; `float_of` is `float`, `none` where it raises.
unfoldable pub parse_seconds : (Text → Option Seconds) → Option Text → Option ℕ
parse_seconds float_of none = none
parse_seconds float_of (some []) = none
parse_seconds float_of (some (c ∷ s)) = elim (float_of (c ∷ s)) [
  | none ↦ none
  | some (positive n) ↦ some n
  | some not_positive ↦ none
]

unfoldable pub abort_of : Libs → Option Manager → Coordinator → Option Coordinator
unfolding manager_changed
abort_of libs none c = some c
abort_of libs (some m) c =
    if is_some m.active_call_id
    then (abort_active_call libs m >>= λ m'. some (manager_changed m m' c))
    else some c

-- `if manager is not None and manager.active_call_id is not None: await manager.abort_active_call()`
unfoldable pub abort_tracked : Libs → Coordinator → Option Coordinator
unfolding abort_of
abort_tracked libs c = abort_of libs c.call_manager c

-- A cancel with an explicit `call_id` that is not that of the ring at hand.
unfoldable pub cancels_other : Text → Option Ringing → Bool
cancels_other id none = false
cancels_other id (some d) = truthy id && not (text_eq id d.call_id)

-- `_async_handle_call_cancel`
unfoldable pub handle_call_cancel : Libs → Payload → Coordinator → Option Coordinator
unfolding cancels_other field drop_pending abort_tracked
handle_call_cancel libs payload c =
    if cancels_other (field payload (codes "call_id")) c.ringing
    then some c
    else (abort_tracked libs c >>= λ c'. some (drop_pending c'))

-- The push's description of the ring.
unfoldable pub ringing_of : Payload → Text → ℕ → ℕ → Ringing
unfolding field
ringing_of payload call_id now seq =
    let hardware_name =
      or_else (field payload (codes "hardwareName")) (field payload (codes "hardware_name")) in
    record {
      call_id = call_id;
      door_name =
          or_else (field payload (codes "message")) (or_else hardware_name (codes "Doorbell"));
      caller_login = field payload (codes "LOGIN_TO_CALL");
      received_at = now;
      ring_seq = seq;
      stream_url = none;
      door_code = or_else (field payload (codes "codes")) (codes "*");
      door_number = field payload (codes "NBPORTE");
      hardware_name = hardware_name;
      hardware_type =
          or_else (field payload (codes "hardwareType")) (field payload (codes "hardware_type"));
      hardware_id =
          or_else (field payload (codes "hardwareId")) (field payload (codes "hardware_id"));
    }

-- The credentials of the ring, if all four are there.
unfoldable pub invite_of : (Text → Option Seconds) → Payload → Text → Option PendingInvite
unfolding field parse_seconds concat
invite_of float_of payload call_id =
    let target = field payload (codes "LOGIN_TO_CALL") in
    let user = field payload (codes "LOGIN") in
    let pass = field payload (codes "PASS") in
    let server = or_else (field payload (codes "ip_adress")) (field payload (codes "domain_sip")) in
    if truthy target && truthy user && truthy pass && truthy server
    then some (record {
      fcm_call_id = call_id;
      target_uri = concat (codes "sip:" ∷ target ∷ codes "@" ∷ server ∷ []);
      target_host = server;
      sip_username = user;
      sip_password = pass;
      started = false;
      answer_called = false;
      stream_ready = false;
      max_duration_s = parse_seconds float_of (lookup (codes "callEndDelay") payload);
    })
    else none

-- The ring itself: the new invite takes the place of the old one, and the listeners are told.
unfoldable pub ring_begins :
    (Text → Option Seconds) → Payload → Text → ℕ → Coordinator → Coordinator
unfolding ringing_of invite_of async_set_updated_data
ring_begins float_of payload call_id now c =
    async_set_updated_data (ringing_of payload call_id now (c.ring_seq + 1))
      (record c { ring_seq = c.ring_seq + 1; pending = invite_of float_of payload call_id })

unfoldable pub is_cancel : Payload → Bool
is_cancel payload =
    let notif_type = lookup (codes "notif_type") payload in
    opt_is notif_type (codes "callCancel")
    || is_some (lookup (codes "cancel") payload) && not (is_some notif_type)

unfoldable pub is_unregister : Payload → Bool
is_unregister payload =
    opt_is (lookup (codes "notif_type") payload) (codes "unregister")
    || is_some (lookup (codes "unregister") payload)

unfoldable pub is_call : Payload → Bool
unfolding field
is_call payload =
    truthy (field payload (codes "call_id")) && truthy (field payload (codes "message"))
    || opt_is (lookup (codes "TYPE") payload) (codes "24")
    || opt_is (lookup (codes "notif_type") payload) (codes "bell")

-- `payload.get("call_id") or payload.get("NOTIFICATION_UUID")`
unfoldable pub ring_id : Payload → Text
unfolding field
ring_id payload =
    or_else (field payload (codes "call_id")) (field payload (codes "NOTIFICATION_UUID"))

-- `async_handle_push`; `none` is an exception of the abort.
unfoldable pub handle_push :
    Libs → (Text → Option Seconds) → ℕ → Payload → Coordinator → Option Coordinator
unfolding handle_call_cancel abort_tracked ring_begins ring_id is_cancel is_unregister is_call
handle_push libs float_of now payload c =
    if is_cancel payload
    then handle_call_cancel libs payload c
    else if is_unregister payload
    then some (record c { reauths = c.reauths + 1 })
    else if not (is_call payload)
    then some c
    else if not (truthy (ring_id payload))
    then some c
    else (abort_tracked libs c >>= λ c'.
        some (ring_begins float_of payload (ring_id payload) now c'))
