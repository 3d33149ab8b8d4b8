-- ===== src/Coordinator/Waiting.antt =====
-- coordinator.py with call_manager.py: the requests of the taps keep the agreement, and every event but
-- a push leaves a start that waits for its connection as it is.
use ha_intratone.Base.{Bool, Option, none, some, ◌≡◌, inl, inr, sym, ap, ◌∙◌, subst, ◌>>=◌}
use ha_intratone.Sip.Types.{Libs}
use ha_intratone.Calls.Manager.{Manager, manager_open_door, manager_backlight, manager_of}
use ha_intratone.Calls.Reports.{OnlyActive, AllSame, Moves, AllMove, for_active-AllSame}
use ha_intratone.Coordinator.State.{Ringing, Coordinator, manager_changed}
use ha_intratone.Coordinator.Taps.{Placing, door_of, backlight_of}
use ha_intratone.Coordinator.Agree.{active_of, Tracks, Agrees}
use ha_intratone.Coordinator.Changes.{manager_changed-Agrees, manager_changed_quiet}
use ha_intratone.Coordinator.Freed.{AllAgree, after}
use ha_intratone.Coordinator.World.{Waits}

-- The coordinator after a request.
abbrev pub coordinator_of : Option (Bool × Coordinator) → Option Coordinator
coordinator_of none = none
coordinator_of (some (b, c)) = some c

asked-AllAgree :
    (m : Manager) (c : Coordinator) (o : Option (Bool × Manager))
    → AllSame m (manager_of o)
    → Tracks m.active_call_id c
    → AllAgree (coordinator_of (o >>= λ p. some (p.0, manager_changed m p.1 c)))
asked-AllAgree m c none s h = tt
asked-AllAgree m c (some (b, m')) s h = after m m' c (manager_changed-Agrees m m' c (inl s) h)

pub door_of-AllAgree :
    (libs : Libs) (d : Option Ringing) (o : Option Manager) (c : Coordinator)
    → c.call_manager ≡ o
    → Agrees c
    → AllAgree (coordinator_of (door_of libs d o c))
unfolding door_of manager_open_door
door_of-AllAgree libs (some d) (some m) c e h =
    asked-AllAgree m c _ (for_active-AllSame _ m) (subst (λ a. Tracks (active_of a) c) e h)
door_of-AllAgree libs none o c e h = h
door_of-AllAgree libs (some d) none c e h = h

pub backlight_of-AllAgree :
    (libs : Libs) (d : Option Ringing) (o : Option Manager) (c : Coordinator)
    → c.call_manager ≡ o
    → Agrees c
    → AllAgree (coordinator_of (backlight_of libs d o c))
unfolding backlight_of manager_backlight
backlight_of-AllAgree libs (some d) (some m) c e h =
    asked-AllAgree m c _ (for_active-AllSame _ m) (subst (λ a. Tracks (active_of a) c) e h)
backlight_of-AllAgree libs none o c e h = h
backlight_of-AllAgree libs (some d) none c e h = h

moved-Waits :
    (w : Placing) (m m' : Manager) (c : Coordinator)
    → m.active_call_id ≡ none
    → Moves m m'
    → Waits w c
    → Waits w (manager_changed m m' c)
moved-Waits w m m' c e (inl s) k =
    subst (Waits w)
      (sym (
        manager_changed_quiet m m' s.reports c s.added
          (subst (λ a. OnlyActive a s.reports) e s.only)))
      (record {
        idle = s.active ∙ e;
        invite = k.invite;
        parked = k.parked;
        marked = k.marked;
        same_ring = k.same_ring;
      })
moved-Waits w m m' c e (inr (id, t)) k = cc (t.was, e)

abbrev pub AllWait : Placing → Option Coordinator → Type 0
AllWait w none = Unit {0}
AllWait w (some c) = Waits w c

pub moved-AllWait :
    (w : Placing) (m : Manager) (c : Coordinator) (o : Option Manager)
    → c.call_manager ≡ some m
    → AllMove m o
    → Waits w c
    → AllWait w (o >>= λ m'. some (manager_changed m m' c))
moved-AllWait w m c none e h k = tt
moved-AllWait w m c (some m') e h k = moved-Waits w m m' c (ap active_of (sym e) ∙ k.idle) h k

asked-AllWait :
    (w : Placing) (m : Manager) (c : Coordinator) (o : Option (Bool × Manager))
    → c.call_manager ≡ some m
    → AllSame m (manager_of o)
    → Waits w c
    → AllWait w (coordinator_of (o >>= λ p. some (p.0, manager_changed m p.1 c)))
asked-AllWait w m c none e s k = tt
asked-AllWait w m c (some (b, m')) e s k =
    moved-Waits w m m' c (ap active_of (sym e) ∙ k.idle) (inl s) k

pub door_of-AllWait :
    (libs : Libs) (w : Placing) (d : Option Ringing) (o : Option Manager) (c : Coordinator)
    → c.call_manager ≡ o
    → Waits w c
    → AllWait w (coordinator_of (door_of libs d o c))
unfolding door_of manager_open_door
door_of-AllWait libs w (some d) (some m) c e k = asked-AllWait w m c _ e (for_active-AllSame _ m) k
door_of-AllWait libs w none o c e k = k
door_of-AllWait libs w (some d) none c e k = k

pub backlight_of-AllWait :
    (libs : Libs) (w : Placing) (d : Option Ringing) (o : Option Manager) (c : Coordinator)
    → c.call_manager ≡ o
    → Waits w c
    → AllWait w (coordinator_of (backlight_of libs d o c))
unfolding backlight_of manager_backlight
backlight_of-AllWait libs w (some d) (some m) c e k =
    asked-AllWait w m c _ e (for_active-AllSame _ m) k
backlight_of-AllWait libs w none o c e k = k
backlight_of-AllWait libs w (some d) none c e k = k
