-- ===== src/Coordinator/State.antt =====
-- coordinator.py: the state of the coordinator, and the callbacks of the call manager.
use ha_intratone.Base.{
  ℕ, Bool, true, false, Option, none, some, List, [], ◌∷◌, ◌++◌, drop, length, not, if◌then◌else◌,
}
use ha_intratone.Base.Text.{Text, text_eq}
use ha_intratone.Calls.Manager.{Manager, Effect, call_active, call_ended, is_active}

-- The `CallState` dataclass; `received_at` is the clock's reading.
pub record Ringing : Type 0 where
  pub call_id : Text
  pub door_name : Text
  pub caller_login : Text
  pub received_at : ℕ
  pub ring_seq : ℕ
  pub stream_url : Option Text
  pub door_code : Text
  pub door_number : Text
  pub hardware_name : Text
  pub hardware_type : Text
  pub hardware_id : Text

-- What `float` makes of a text: a number above 0, named by a code, or another one.
pub data Seconds : Type 0 where
  positive : ℕ → Seconds
  not_positive : Seconds

-- `_PendingInvite`; `stream_ready` tells whether its event is set.
pub record PendingInvite : Type 0 where
  pub fcm_call_id : Text
  pub target_uri : Text
  pub target_host : Text
  pub sip_username : Text
  pub sip_password : Text
  pub started : Bool
  pub answer_called : Bool
  pub stream_ready : Bool
  pub max_duration_s : Option ℕ

-- The fields, with the states that the listeners were told of, the calls of `answer_call`, the
-- reauthentications begun, and the invites whose event was set as they were dropped.
pub record Coordinator : Type 0 where
  pub ring_seq : ℕ
  pub call_manager : Option Manager
  pub active_sip_call_id : Option Text
  pub pending : Option PendingInvite
  pub ringing : Option Ringing
  pub updates : List Ringing
  pub answered : List Text
  pub reauths : ℕ
  pub woken : List PendingInvite

-- `__init__`
unfoldable pub new_coordinator : Coordinator
new_coordinator = record {
  ring_seq = 0;
  call_manager = none;
  active_sip_call_id = none;
  pending = none;
  ringing = none;
  updates = [];
  answered = [];
  reauths = 0;
  woken = [];
}

-- `attach_call_manager`
unfoldable pub attach_call_manager : Manager → Coordinator → Coordinator
attach_call_manager m c = record c { call_manager = some m }

-- `async_set_updated_data`
unfoldable pub async_set_updated_data : Ringing → Coordinator → Coordinator
async_set_updated_data d c = record c { ringing = some d; updates = c.updates ++ d ∷ [] }

-- The event of an invite is set.
abbrev pub set_ready : Option PendingInvite → Option PendingInvite
set_ready none = none
set_ready (some p) = some (record p { stream_ready = true })

abbrev pub those_woken : Option PendingInvite → List PendingInvite
those_woken none = []
those_woken (some p) = record p { stream_ready = true } ∷ []

-- The invite is dropped, and who waits for it is woken.
unfoldable pub drop_pending : Coordinator → Coordinator
drop_pending c = record c { pending = none; woken = c.woken ++ those_woken c.pending }

-- `a == b` on optional texts
unfoldable pub same_url : Option Text → Option Text → Bool
same_url none none = true
same_url (some a) (some b) = text_eq a b
same_url none (some b) = false
same_url (some a) none = false

unfoldable pub publish : Option Text → Ringing → Coordinator → Coordinator
unfolding same_url async_set_updated_data
publish url d c =
    if same_url d.stream_url url
    then c
    else async_set_updated_data (record d { stream_url = url }) c

unfoldable pub set_stream_url_of : Option Ringing → Text → Option Text → Coordinator → Coordinator
unfolding drop_pending publish
set_stream_url_of none id url c = c
set_stream_url_of (some d) id none c =
    if not (is_active id c.active_sip_call_id)
    then c
    else publish none d (drop_pending (record c { active_sip_call_id = none }))
set_stream_url_of (some d) id (some url) c =
    if not (is_active id c.active_sip_call_id)
    then c
    else publish (some url) d (record c { pending = set_ready c.pending })

-- `set_stream_url`
unfoldable pub set_stream_url : Text → Option Text → Coordinator → Coordinator
unfolding set_stream_url_of
set_stream_url id url c = set_stream_url_of c.ringing id url c

-- The manager's callbacks, as `async_setup_entry` connects them.
unfoldable pub deliver : List Effect → Coordinator → Coordinator
unfolding set_stream_url
deliver [] c = c
deliver (call_active id url ∷ es) c = deliver es (set_stream_url id (some url) c)
deliver (call_ended id ∷ es) c = deliver es (set_stream_url id none c)
deliver (e ∷ es) c = deliver es c

-- The manager has gone from one state to another, and calls back for what is new.
unfoldable pub manager_changed : Manager → Manager → Coordinator → Coordinator
unfolding deliver
manager_changed m m' c =
    deliver (drop (length m.effects) m'.effects) (record c { call_manager = some m' })
