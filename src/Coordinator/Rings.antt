-- ===== src/Coordinator/Rings.antt =====
-- coordinator.py with event.py: the doorbell's events are the rings that the coordinator accepted.
use ha_intratone.Base.{
  ℕ, ◌+◌, Bool, Option, none, some, List, [], ◌∷◌, ◌++◌, ◌≡◌, refl, sym, ap, ◌∙◌, subst, length,
  length-append, if-cases, is_some, not, ◌||◌, ◌>>=◌,
}
use ha_intratone.Base.Text.{Text, truthy, codes}
use ha_intratone.Sip.Types.{Libs}
use ha_intratone.Calls.Manager.{Manager}
use ha_intratone.Calls.Start.{
  Outcome, placed, refused, raised, Begun, returned, connecting, start_call_begins,
  start_call_resumes,
}
use ha_intratone.Calls.Shutdown.{Op, step}
use ha_intratone.Coordinator.State.{
  Seconds, Ringing, PendingInvite, Coordinator, new_coordinator, attach_call_manager,
  async_set_updated_data, drop_pending, manager_changed,
}
use ha_intratone.Coordinator.Push.{
  Payload, abort_tracked, cancels_other, handle_call_cancel, ringing_of, ring_begins, ring_id,
  is_cancel, is_unregister, is_call, field, handle_push,
}
use ha_intratone.Coordinator.Taps.{
  Network, ring_of, answer_once, call_tried, Placing, Tapped, ensure_with, ensure_begins_of,
  ensure_begins, tried_on, ensure_resumes_of, ensure_resumes, tap_of, tap_begins, door_of,
  door_opens, backlight_of, backlight_toggles,
}
use ha_intratone.Coordinator.Waiting.{coordinator_of}
use ha_intratone.Coordinator.Runs.{
  Event, push, door, light, in_manager, in_manager_of, happens, Reached, attached, next, view, tap,
  connects,
}
use ha_intratone.Coordinator.Doorbell.{RingEvent, new_doorbell, event_of, told, told-append}
use ha_intratone.Coordinator.Updates.{
  AllRung, Rung, RungAt, abort_of-AllRung, drop_pending-Rung, handle_new, heard, kept-AllRung,
  manager_changed-Rung, some_inj, then-AllRung,
}

-- The update of a new ring.
fresh_ring :
    (d : Ringing) (ds : List Ringing) (n : ℕ) (o : Option Ringing)
    → d.ring_seq ≡ n + 1
    → Rung n o ds
    → Rung (n + 1) (some d) (ds ++ d ∷ [])
unfolding told
fresh_ring d ds n o e h =
    let grown : heard (ds ++ d ∷ [])
        ≡ record { last_seq = d.ring_seq; triggered = (heard ds).triggered ++ event_of d ∷ [] } =
      told-append ds (d ∷ []) new_doorbell
      ∙ handle_new d (heard ds) (e ∙ ap (λ k. k + 1) (sym h.sequenced)) in
    record {
      sequenced = ap (λ b. b.last_seq) grown ∙ e;
      counted =
          ap (λ b. length b.triggered) grown
          ∙ length-append (heard ds).triggered (event_of d ∷ [])
          ∙ ap (λ k. k + 1) h.counted;
      numbered = λ q k. ap (λ r. r.ring_seq) (sym (some_inj d q k)) ∙ e;
      latest = λ q k. (
        (heard ds).triggered,
        ap (λ b. b.triggered) grown
            ∙ ap (λ v. (heard ds).triggered ++ v ∷ []) (ap event_of (some_inj d q k)),
      );
    }

ring_begins-Rung :
    (float_of : Text → Option Seconds) (payload : Payload) (id : Text) (now : ℕ) (c : Coordinator)
    → RungAt c
    → RungAt (ring_begins float_of payload id now c)
unfolding ring_begins async_set_updated_data ringing_of
ring_begins-Rung float_of payload id now c h =
    fresh_ring (ringing_of payload id now (c.ring_seq + 1)) c.updates c.ring_seq c.ringing refl h

handle_push-AllRung :
    (libs : Libs) (float_of : Text → Option Seconds) (now : ℕ) (payload : Payload) (c : Coordinator)
    → RungAt c
    → AllRung (handle_push libs float_of now payload c)
unfolding handle_push handle_call_cancel abort_tracked
handle_push-AllRung libs float_of now payload c h =
    let aborted = abort_of-AllRung libs c.call_manager c h in
    if-cases AllRung (is_cancel payload)
      (λ cancel.
        if-cases AllRung (cancels_other (field payload (codes "call_id")) c.ringing) (λ other. h)
          (λ this. kept-AllRung _ drop_pending drop_pending-Rung aborted))
      (λ going.
        if-cases AllRung (is_unregister payload) (λ out. h)
          (λ in_use.
            if-cases AllRung (not (is_call payload)) (λ other. h)
              (λ call.
                if-cases AllRung (not (truthy (ring_id payload))) (λ anonymous. h)
                  (λ named.
                    kept-AllRung _ (ring_begins float_of payload (ring_id payload) now)
                      (ring_begins-Rung float_of payload (ring_id payload) now) aborted))))

answer_once-Rung : (p : PendingInvite) (c : Coordinator) → RungAt c → RungAt (answer_once p c)
unfolding answer_once
answer_once-Rung p c h = if-cases RungAt p.answer_called (λ done. h) (λ new. h)

tried-Rung :
    (p : PendingInvite) (o : Outcome) (c : Coordinator) → RungAt c → RungAt (call_tried p o c).1
unfolding call_tried
tried-Rung p (placed id) c h = answer_once-Rung _ _ h
tried-Rung p refused c h = h
tried-Rung p raised c h = h

ensure_with-Rung :
    (p : PendingInvite) (m : Manager) (b : Begun × Manager) (c : Coordinator)
    → RungAt c
    → RungAt (ensure_with p m b c).1
unfolding ensure_with
ensure_with-Rung p m (returned o, m') c h = tried-Rung p o _ (manager_changed-Rung m m' c h)
ensure_with-Rung p m (connecting w, m') c h = manager_changed-Rung m m' c h

ensure_begins_of-Rung :
    (n : Network) (o : Option PendingInvite) (u : Option Manager) (c : Coordinator)
    → RungAt c
    → RungAt (ensure_begins_of n o u c).1
unfolding ensure_begins_of
ensure_begins_of-Rung n none u c h = h
ensure_begins_of-Rung n (some p) none c h = h
ensure_begins_of-Rung n (some p) (some m) c h =
    if-cases {A = Tapped × Coordinator} (λ r. RungAt r.1) p.started (λ done. h)
      (λ new. ensure_with-Rung _ m (start_call_begins (ring_of p n) m) c h)

ensure_begins-Rung : (n : Network) (c : Coordinator) → RungAt c → RungAt (ensure_begins n c).1
unfolding ensure_begins
ensure_begins-Rung n c h = ensure_begins_of-Rung n c.pending c.call_manager c h

tap_of-Rung :
    (n : Network) (o : Option PendingInvite) (c : Coordinator) → RungAt c → RungAt (tap_of n o c).1
unfolding tap_of
tap_of-Rung n none c h = h
tap_of-Rung n (some p) c h =
    if-cases {A = Tapped × Coordinator} (λ r. RungAt r.1) p.started (λ done. h)
      (λ new. ensure_begins-Rung n c h)

tap_begins-Rung : (n : Network) (c : Coordinator) → RungAt c → RungAt (tap_begins n c).1
unfolding tap_begins
tap_begins-Rung n c h =
    if-cases {A = Tapped × Coordinator} (λ r. RungAt r.1)
      (not (is_some c.ringing) || not (is_some c.call_manager)) (λ out. h)
      (λ ready. tap_of-Rung n c.pending c h)

tried_on-Rung :
    (w : Placing) (q : Option PendingInvite) (o : Outcome) (c : Coordinator)
    → RungAt c
    → RungAt (tried_on w q o c).1
unfolding tried_on
tried_on-Rung w (some p) o c h = tried-Rung p o c h
tried_on-Rung w none o c h = tried-Rung w.invite o c h

ensure_resumes_of-Rung :
    (libs : Libs) (w : Placing) (o : Option (Option ℕ)) (u : Option Manager) (c : Coordinator)
    → RungAt c
    → RungAt (ensure_resumes_of libs w o u c).1
unfolding ensure_resumes_of
ensure_resumes_of-Rung libs w o none c h = h
ensure_resumes_of-Rung libs w o (some m) c h =
    let r = start_call_resumes libs w.start o m in
    tried_on-Rung w _ r.0 _ (manager_changed-Rung m r.1 c h)

ensure_resumes-Rung :
    (libs : Libs) (w : Placing) (o : Option (Option ℕ)) (c : Coordinator)
    → RungAt c
    → RungAt (ensure_resumes libs w o c).1
unfolding ensure_resumes
ensure_resumes-Rung libs w o c h = ensure_resumes_of-Rung libs w o c.call_manager c h

asked-AllRung :
    (m : Manager) (c : Coordinator) (o : Option (Bool × Manager))
    → RungAt c
    → AllRung (coordinator_of (o >>= λ p. some (p.0, manager_changed m p.1 c)))
asked-AllRung m c none h = tt
asked-AllRung m c (some (b, m')) h = manager_changed-Rung m m' c h

door_of-AllRung :
    (libs : Libs) (d : Option Ringing) (o : Option Manager) (c : Coordinator)
    → RungAt c
    → AllRung (coordinator_of (door_of libs d o c))
unfolding door_of
door_of-AllRung libs (some d) (some m) c h = asked-AllRung m c _ h
door_of-AllRung libs none o c h = h
door_of-AllRung libs (some d) none c h = h

backlight_of-AllRung :
    (libs : Libs) (d : Option Ringing) (o : Option Manager) (c : Coordinator)
    → RungAt c
    → AllRung (coordinator_of (backlight_of libs d o c))
unfolding backlight_of
backlight_of-AllRung libs (some d) (some m) c h = asked-AllRung m c _ h
backlight_of-AllRung libs none o c h = h
backlight_of-AllRung libs (some d) none c h = h

in_manager-AllRung :
    (libs : Libs) (op : Op) (o : Option Manager) (c : Coordinator)
    → RungAt c
    → AllRung (in_manager_of libs op o c)
in_manager-AllRung libs op none c h = h
in_manager-AllRung libs op (some m) c h =
    then-AllRung (step libs op m) (λ m'. manager_changed m m' c)
      (λ m'. manager_changed-Rung m m' c h)

happens-AllRung :
    (libs : Libs) (float_of : Text → Option Seconds) (e : Event) (c : Coordinator)
    → RungAt c
    → AllRung (happens libs float_of e c)
unfolding happens door_opens backlight_toggles
happens-AllRung libs float_of (push now payload) c h =
    handle_push-AllRung libs float_of now payload c h
happens-AllRung libs float_of door c h = door_of-AllRung libs c.ringing c.call_manager c h
happens-AllRung libs float_of light c h = backlight_of-AllRung libs c.ringing c.call_manager c h
happens-AllRung libs float_of (in_manager op) c h = in_manager-AllRung libs op c.call_manager c h

attached-Rung : (m : Manager) → RungAt (attach_call_manager m new_coordinator)
unfolding attach_call_manager new_coordinator told
attached-Rung m = record {
  sequenced = refl;
  counted = refl;
  numbered = λ d k. cc;
  latest = λ d k. cc;
}

rung :
    (libs : Libs) (float_of : Text → Option Seconds) (m : Manager) (loose : Bool) (c : Coordinator)
    (w : Option Placing)
    → Reached libs float_of m loose c w
    → RungAt c
rung libs float_of m loose c w attached = attached-Rung m
rung libs float_of m loose c w (next {c = b} e r p k) =
    subst AllRung k (happens-AllRung libs float_of e b (rung libs float_of m loose b w r))
rung libs float_of m loose c w (view {c = b} {w = v} n r) =
    ensure_begins-Rung n b (rung libs float_of m loose b v r)
rung libs float_of m loose c w (tap {c = b} {w = v} n r) =
    tap_begins-Rung n b (rung libs float_of m loose b v r)
rung libs float_of m loose c w (connects {c = b} {w = v} p o r q) =
    ensure_resumes-Rung libs p o b (rung libs float_of m loose b v r)

-- The ring at hand has the last number, and the last event is its.
abbrev pub Latest : ℕ → Option Ringing → List RingEvent → Type 0
Latest seq none triggered = Unit {0}
Latest seq (some d) triggered =
    (d.ring_seq ≡ seq) × (earlier : List RingEvent) × (triggered ≡ earlier ++ event_of d ∷ [])

Rung-Latest :
    (seq : ℕ) (o : Option Ringing) (ds : List Ringing)
    → Rung seq o ds
    → Latest seq o (heard ds).triggered
Rung-Latest seq none ds h = tt
Rung-Latest seq (some d) ds h = let (x, w) = h.latest d refl in (h.numbered d refl, x, w)

-- After any sequence of pushes, taps, answers of the connections and events of the call, with the
-- doorbell entity told of every update from the beginning: it has triggered one event for each ring
-- that the coordinator accepted, however often the ring's stream URL changed, and the last event is
-- that of the ring at hand. Pushes may come and further starts begin while a start waits.
pub reached-Rung :
    (libs : Libs) (float_of : Text → Option Seconds) (m : Manager) (loose : Bool) (c : Coordinator)
    (w : Option Placing)
    → Reached libs float_of m loose c w
    → (length (heard c.updates).triggered ≡ c.ring_seq)
      × Latest c.ring_seq c.ringing (heard c.updates).triggered
reached-Rung libs float_of m loose c w r =
    let h = rung libs float_of m loose c w r in
    (h.counted, Rung-Latest c.ring_seq c.ringing c.updates h)
