-- ===== src/Coordinator/Runs.antt =====
-- coordinator.py with call_manager.py: sequences of pushes, taps and events of the call.
use ha_intratone.Base.{true, ◌⊎◌, ℕ, Bool, Option, none, some, ◌≡◌, ◌>>=◌}
use ha_intratone.Base.Text.{Text}
use ha_intratone.Sip.Types.{Libs}
use ha_intratone.Calls.Manager.{Manager}
use ha_intratone.Calls.Shutdown.{Op, step}
use ha_intratone.Calls.Steps.{Goes}
use ha_intratone.Coordinator.State.{
  Seconds, PendingInvite, Coordinator, new_coordinator, attach_call_manager, manager_changed,
}
use ha_intratone.Coordinator.Push.{Payload, handle_push}
use ha_intratone.Coordinator.Taps.{
  Network, Placing, ensure_begins, ensure_resumes, tap_begins, door_opens, backlight_toggles,
}
use ha_intratone.Coordinator.World.{waits}
use ha_intratone.Coordinator.Waiting.{coordinator_of}

-- What can happen to the coordinator besides the starts of a call: a push at some time, the ends of
-- the door and backlight taps, and whatever happens in its manager.
pub data Event : Type 0 where
  push : ℕ → Payload → Event
  door light : Event
  in_manager : Op → Event

abbrev pub in_manager_of : Libs → Op → Option Manager → Coordinator → Option Coordinator
in_manager_of libs op none c = some c
in_manager_of libs op (some m) c = step libs op m >>= λ m'. some (manager_changed m m' c)

-- `none` is an exception.
unfoldable pub happens : Libs → (Text → Option Seconds) → Event → Coordinator → Option Coordinator
unfolding handle_push door_opens backlight_toggles
happens libs float_of (push now payload) c = handle_push libs float_of now payload c
happens libs float_of door c = coordinator_of (door_opens libs c)
happens libs float_of light c = coordinator_of (backlight_toggles libs c)
happens libs float_of (in_manager op) c = in_manager_of libs op c.call_manager c

-- The coordinator's manager is not stopped. A push comes while no start waits for its connection,
-- unless the runs are `loose`.
abbrev pub Possible : Bool → Option Placing → Event → Type 0
Possible loose w (push now payload) = (loose ≡ true) ⊎ (w ≡ none)
Possible loose w (in_manager op) = Goes op
Possible loose w _ = Unit {0}

-- A sequence of events without an exception that leaves the coordinator and the start that waits for
-- its connection, if there is one. A camera view or the beginning of a door or backlight tap may
-- come at any time, and the connection's answer while a start waits. In `loose` runs several starts
-- may wait, pushes come in between, and any of the starts may go on.
pub data Reached (libs : Libs) (float_of : Text → Option Seconds) (m : Manager) (loose : Bool)
    : Coordinator → Option Placing → Type 0 where
  attached : Reached libs float_of m loose (attach_call_manager m new_coordinator) none
  next :
      {c c' : Coordinator} {w : Option Placing} (e : Event)
      → Reached libs float_of m loose c w
      → Possible loose w e
      → happens libs float_of e c ≡ some c'
      → Reached libs float_of m loose c' w
  view :
      {c : Coordinator} {w : Option Placing} (n : Network)
      → Reached libs float_of m loose c w
      → Reached libs float_of m loose (ensure_begins n c).1 (waits w (ensure_begins n c).0)
  tap :
      {c : Coordinator} {w : Option Placing} (n : Network)
      → Reached libs float_of m loose c w
      → Reached libs float_of m loose (tap_begins n c).1 (waits w (tap_begins n c).0)
  connects :
      {c : Coordinator} {w : Option Placing} (p : Placing) (o : Option (Option ℕ))
      → Reached libs float_of m loose c w
      → (loose ≡ true) ⊎ (w ≡ some p)
      → Reached libs float_of m loose (ensure_resumes libs p o c).1 none

-- The invite's call was started, or no call is active.
abbrev pub Used : Option PendingInvite → Option Text → Type 0
Used none a = Unit {0}
Used (some p) a = (p.started ≡ true) ⊎ (a ≡ none)
