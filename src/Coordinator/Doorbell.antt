-- ===== src/Coordinator/Doorbell.antt =====
-- event.py: the doorbell's event entity (`IntratoneDoorbellEvent`), as a listener of the coordinator.
use ha_intratone.Base.{
  ℕ, ◌==◌, Option, none, some, List, [], ◌∷◌, ◌++◌, ◌≡◌, refl, not, if◌then◌else◌,
}
use ha_intratone.Base.Text.{Text, truthy}
use ha_intratone.Coordinator.State.{Ringing}

-- The attributes of a `ring` event; the last three are left out where the push had none.
pub record RingEvent : Type 0 where
  pub door_name : Text
  pub door_number : Text
  pub caller : Text
  pub call_id : Text
  pub hardware_name : Option Text
  pub hardware_type : Option Text
  pub hardware_id : Option Text

-- The entity, with the events that it triggered.
pub record Doorbell : Type 0 where
  pub last_seq : ℕ
  pub triggered : List RingEvent

-- `__init__`
abbrev pub new_doorbell : Doorbell
new_doorbell = record { last_seq = 0; triggered = [] }

abbrev pub seeded : Option Ringing → Doorbell → Doorbell
seeded none b = b
seeded (some d) b = record b { last_seq = d.ring_seq }

-- `async_added_to_hass`, before the subscription.
unfoldable pub added_to_hass : Option Ringing → Doorbell → Doorbell
added_to_hass state b = seeded state b

-- The field, if it is populated.
abbrev pub populated : Text → Option Text
populated s = if truthy s then some s else none

unfoldable pub event_of : Ringing → RingEvent
event_of d = record {
  door_name = d.door_name;
  door_number = d.door_number;
  caller = d.caller_login;
  call_id = d.call_id;
  hardware_name = populated d.hardware_name;
  hardware_type = populated d.hardware_type;
  hardware_id = populated d.hardware_id;
}

-- `_handle_coordinator_update`, with the coordinator's data.
unfoldable pub handle_update : Ringing → Doorbell → Doorbell
unfolding event_of
handle_update d b =
    if not (d.ring_seq == b.last_seq)
    then record b { last_seq = d.ring_seq; triggered = b.triggered ++ event_of d ∷ [] }
    else b

-- The entity is told of every update.
unfoldable pub told : List Ringing → Doorbell → Doorbell
unfolding handle_update
told [] b = b
told (d ∷ ds) b = told ds (handle_update d b)

pub told-append : (ds es : List Ringing) (b : Doorbell) → told (ds ++ es) b ≡ told es (told ds b)
unfolding told
told-append [] es b = refl
told-append (d ∷ ds) es b = told-append ds es (handle_update d b)
